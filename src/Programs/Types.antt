-- ===== src/Programs/Types.antt =====
-- The errors of the programs of core/src, and what they take from their host.
use better_commerce.Prelude.{ℕ, Option, Text, List, Result}
use better_commerce.Manifest.Types.{Crates, Manifest, ManifestError}
use better_commerce.Dispatcher.Types.{SqlError}
use better_commerce.Example.Types.{ExampleConfiguration}
use better_commerce.Database.Types.{DatabaseError, Urls}

-- `Box<dyn Error>` of `main`.
pub data ProgramError : Type 0 where
  io_error : ProgramError
  var_error : (name : Text) → ProgramError
  invalid_manifest : ManifestError → ProgramError
  refused_url : SqlError → ProgramError
  database_failed : DatabaseError → ProgramError

-- The environment variables, the file system, the network, and the crates serde_yaml, sqlx, url,
-- percent_encoding and sha2.
pub record Host (X : Crates) : Type 1 where
  -- `std::env::var`; `none` is its error.
  pub get_env : Text → Option Text
  pub read_to_string : Text → Option Text
  pub from_str : Text → Result Text (Manifest X)
  pub from_value : X.Value → Result Text ExampleConfiguration
  -- `connect_lazy`, which reads the URL of a pool.
  pub connect_lazy : Text → Result SqlError (Unit {0})
  -- `TcpListener::bind` on all addresses and a port.
  pub listen : ℕ → Option (Unit {0})
  pub urls : Urls
  pub sha256 : List ℕ → List ℕ
