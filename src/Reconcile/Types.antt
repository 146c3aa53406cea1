-- ===== src/Reconcile/Types.antt =====
-- The types of core/src/reconcile.rs, and what it takes from its machine.
use better_commerce.Prelude.{ℕ, ℤ, Bool, Option, Text, List, BTreeMap, Result}
use better_commerce.Manifest.Types.{Crates, Manifest}
use better_commerce.Example.Types.{ExampleConfiguration}

pub record ReconcileReport : Type 0 where
  pub installation_id : Text
  pub database_name : Text
  pub compose_project : Text
  pub ready_url : Text

pub record ReconcileError : Type 0 where
  pub phase : Text
  pub message : Text

pub record ResolvedSecrets : Type 0 where
  pub operations_password : Text
  pub example_password : Text
  pub dispatcher_password : Text
  pub readiness_password : Text

pub record ComposeContext : Type 0 where
  pub file : Text
  pub project : Text
  pub environment : BTreeMap Text

-- `std::process::Output`: no exit code means a signal.
pub record Output : Type 0 where
  pub code : Option ℤ
  pub stdout : List ℕ
  pub stderr : List ℕ

-- A round of `verify_ready`: the time when it begins, in milliseconds, and the bytes that the
-- connection answers, if it is read to its end within two seconds.
pub record Round : Type 0 where
  pub begins : ℕ
  pub response : Option (List ℕ)

-- The file system with its paths, the environment variables, Docker, the network and its clock,
-- and the crates `sha2`, `percent_encoding` and `serde_yaml`.
pub record Machine (X : Crates) : Type 1 where
  pub canonicalize : Text → Option Text
  pub read_to_string : Text → Option Text
  pub get_env : Text → Option Text
  pub parent : Text → Option Text
  pub is_absolute : Text → Bool
  pub join : Text → Text → Text
  -- `env!("CARGO_MANIFEST_DIR")`.
  pub cargo_manifest_dir : Text
  -- `Command::output` on `docker compose`; `none` if it could not be started.
  pub docker_compose : ComposeContext → List Text → Option Output
  pub from_utf8_lossy : List ℕ → Text
  -- `SocketAddr::from_str`, and whether a text is an address.
  pub is_address : Text → Bool
  -- `Instant::now` when `verify_ready` starts, and its rounds.
  pub starts : ℕ
  pub round : ℕ → Round
  pub sha256 : List ℕ → List ℕ
  pub utf8_percent_encode : Text → Text
  pub from_str : Text → Result Text (Manifest X)
  pub from_value : X.Value → Result Text ExampleConfiguration
