-- ===== src/Manifest/Validate/Accepts.antt =====
-- What `validate_manifest` of core/src/manifest.rs accepts, said without its loops.
use better_commerce.Prelude.{◌≡◌, true, some, Text, BTreeMap, get, contains_key, All}
use better_commerce.Manifest.Types.{
  Crates, Manifest, ModuleInstallation, ReleaseMetadata, ModuleMetadata, ValidatedManifest,
}
use better_commerce.Manifest.Acyclic.Chains.{HasEnd}
use better_commerce.Manifest.Validate.{contains_mode}

module _ (X : Crates) (metadata : ReleaseMetadata X) where
  open X use {Version, VersionReq, matches}

  -- The release provides a contract in a version that meets the requirement.
  abbrev pub IsProvided : Text × VersionReq → Type 0
  IsProvided c = (v : Version) × (get c.0 metadata.contracts ≡ some v) × (matches c.1 v ≡ true)

  -- The release has the module in this very version, and provides what it requires.
  pub record IsSupported (e : Text × ModuleInstallation X) : Type 0 where
    pub supported : ModuleMetadata X
    pub known : get (e.0) metadata.modules ≡ some supported
    pub exact : (e.1).version ≡ supported.version
    pub provided : All IsProvided supported.contract_requirements

  -- The dependencies of the module are enabled.
  pub record HasDependencies (enabled : BTreeMap (ModuleInstallation X)) (id : Text) : Type 0 where
    pub supported : ModuleMetadata X
    pub known : get id metadata.modules ≡ some supported
    pub all_enabled : All (λ d. contains_key d enabled ≡ true) supported.required_dependencies

  pub record Accepts (manifest : Manifest X) : Type 0 where
    pub release : manifest.release ≡ metadata.release
    pub mode : contains_mode manifest.deployment_mode metadata.deployment_modes ≡ true
    pub modules_supported : All IsSupported manifest.modules
    pub dependencies : All (λ e. HasDependencies manifest.modules (e.0)) manifest.modules
    pub acyclic :
        (id : Text)
        → contains_key id manifest.modules ≡ true
        → HasEnd X manifest.modules metadata id

  -- The manifest without its release.
  abbrev pub accepted : Manifest X → ValidatedManifest X
  accepted manifest = record {
    deployment_mode = manifest.deployment_mode;
    modules = manifest.modules;
    local = manifest.local;
  }
