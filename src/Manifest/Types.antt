-- ===== src/Manifest/Types.antt =====
-- The types of core/src/manifest.rs. `semver` and `serde_yaml` are parameters: `Crates`.
use better_commerce.Prelude.{
  ℕ, ◌≡◌, ◌↔◌, Bool, true, false, Option, Text, text, List, BTreeMap, BTreeSet,
}

-- What the code uses of the crates `semver` and `serde_yaml`. Equality of versions decides paths.
pub record Crates : Type 1 where
  pub Version : Type 0
  pub VersionReq : Type 0
  -- `serde_yaml::Value`, a module's opaque configuration.
  pub Value : Type 0
  -- `Version::new`.
  pub version : ℕ → ℕ → ℕ → Version
  pub version_eq : Version → Version → Bool
  pub version_eq_iff : (v w : Version) → (version_eq v w ≡ true) ↔ (v ≡ w)
  pub show_version : Version → Text
  -- `VersionReq::parse`; `none` is its error.
  pub parse_req : Text → Option VersionReq
  pub matches : VersionReq → Version → Bool
  pub show_req : VersionReq → Text

pub data DeploymentMode : Type 0 where
  self_hosted operated : DeploymentMode

pub data SecretReference : Type 0 where
  environment : (env : Text) → SecretReference
  file : (path : Text) → SecretReference

pub record LocalSecrets : Type 0 where
  pub operations_password : SecretReference
  pub example_password : SecretReference
  pub dispatcher_password : SecretReference
  pub readiness_password : SecretReference

pub record LocalDeployment : Type 0 where
  pub installation_id : Text
  pub database_name : Text
  pub http_port : ℕ
  pub secrets : LocalSecrets

pub record ManifestError : Type 0 where
  pub message : Text

-- `self.deployment_modes.contains(mode)`, on the derived equality.
abbrev pub mode_eq : DeploymentMode → DeploymentMode → Bool
mode_eq self_hosted self_hosted = true
mode_eq operated operated = true
mode_eq _ _ = false

abbrev pub show_mode : DeploymentMode → Text
show_mode self_hosted = text "SelfHosted"
show_mode operated = text "Operated"

module _ (X : Crates) where
  open X use {Version, VersionReq, Value}

  pub record ModuleInstallation : Type 0 where
    pub version : Version
    pub configuration : Value

  pub record Manifest : Type 0 where
    pub release : Version
    pub deployment_mode : DeploymentMode
    pub modules : BTreeMap ModuleInstallation
    pub local : Option LocalDeployment

  pub record ModuleMetadata : Type 0 where
    pub version : Version
    pub required_dependencies : BTreeSet
    pub contract_requirements : BTreeMap VersionReq

  pub record ReleaseMetadata : Type 0 where
    pub release : Version
    pub deployment_modes : List DeploymentMode
    pub modules : BTreeMap ModuleMetadata
    pub contracts : BTreeMap Version

  pub record ValidatedManifest : Type 0 where
    pub deployment_mode : DeploymentMode
    pub modules : BTreeMap ModuleInstallation
    pub local : Option LocalDeployment
