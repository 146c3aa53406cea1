-- ===== src/Manifest/Validate.antt =====
-- `validate_manifest`, `parse_and_validate` and `supported_release_metadata` of
-- core/src/manifest.rs. The maps and sets are iterated in the order of their keys.
pub mod Loops
pub mod Accepts
pub mod Decides
use better_commerce.Prelude.{
  Bool, true, false, ◌||◌, Text, text, List, [], ◌∷◌, ◌++◌, BTreeMap, BTreeSet, get, contains_key,
  Result, Outcome, returns, fails,
}
use better_commerce.Prelude.Results.{map_err}
use better_commerce.Prelude.Outcomes.{of_result, or_fail, ensure, index, ◌>>=◌, ◌>>◌}
use better_commerce.Manifest.Types.{
  Crates, DeploymentMode, mode_eq, show_mode, self_hosted, operated, ManifestError, Manifest,
  ModuleInstallation, ReleaseMetadata, ModuleMetadata, ValidatedManifest,
}
use better_commerce.Manifest.Acyclic.{ensure_acyclic}

abbrev pub foundation_contract : Text
foundation_contract = text "foundation"

-- `BTreeSet<DeploymentMode>::contains`.
unfoldable pub contains_mode : DeploymentMode → List DeploymentMode → Bool
contains_mode m [] = false
contains_mode m (n ∷ ms) = mode_eq n m || contains_mode m ms

module _ (X : Crates) where
  open X use {Version, VersionReq, version, version_eq, show_version, parse_req, matches, show_req}

  -- The errors, by the texts of their `format!` calls.
  unfoldable pub release_error : Version → Version → ManifestError
  release_error wanted supported = record {
    message =
        text "release "
        ++ (show_version wanted
            ++ (text " is unsupported; this binary supports " ++ show_version supported));
  }

  unfoldable pub mode_error : DeploymentMode → Version → ManifestError
  mode_error mode release = record {
    message =
        text "deployment mode "
        ++ (show_mode mode ++ (text " is unsupported by release " ++ show_version release));
  }

  unfoldable pub unknown_error : Text → ManifestError
  unknown_error id = record {
    message = text "module '" ++ (id ++ text "' is unknown or unsupported");
  }

  unfoldable pub version_error : Text → Version → Version → Version → ManifestError
  version_error id wanted release supported = record {
    message =
        text "module '"
        ++ (id
            ++ (text "' version "
                ++ (show_version wanted
                    ++ (text " is incompatible; release "
                        ++ (show_version release
                            ++ (text " supports " ++ show_version supported))))));
  }

  unfoldable pub missing_contract_error : Text → Text → ManifestError
  missing_contract_error id contract = record {
    message =
        text "module '" ++ (id ++ (text "' requires missing contract '" ++ (contract ++ text "'")));
  }

  unfoldable pub contract_error : Text → Text → VersionReq → Version → Version → ManifestError
  contract_error id contract requirement release provided = record {
    message =
        text "module '"
        ++ (id
            ++ (text "' requires contract '"
                ++ (contract
                    ++ (text "' "
                        ++ (show_req requirement
                            ++ (text ", but release "
                                ++ (show_version release
                                    ++ (text " provides " ++ show_version provided))))))));
  }

  unfoldable pub dependency_error : Text → Text → ManifestError
  dependency_error id dependency = record {
    message =
        text "module '" ++ (id ++ (text "' requires enabled module '" ++ (dependency ++ text "'")));
  }

  unfoldable pub supported_release_metadata : Outcome ManifestError (ReleaseMetadata X)
  supported_release_metadata = do
    requirement ← index (parse_req (text "^1.0"))
    returns (record {
      release = version 0 1 0;
      deployment_modes = self_hosted ∷ operated ∷ [];
      modules =
          (
            text "example",
            record {
              version = version 0 1 0;
              required_dependencies = [];
              contract_requirements = (foundation_contract, requirement) ∷ [];
            },
          )
          ∷ [];
      contracts = (foundation_contract, version 1 0 0) ∷ [];
    })

  unfoldable pub module_exists : BTreeMap (ModuleInstallation X) → Text → Bool
  module_exists modules id = contains_key id modules

  module _ (metadata : ReleaseMetadata X) where
    -- The innermost loop, over `module.contract_requirements`.
    unfoldable pub check_contracts : Text → BTreeMap VersionReq → Outcome ManifestError (Unit {0})
    check_contracts id [] = returns tt
    check_contracts id ((contract, requirement) ∷ rest) = do
      provided ← or_fail (get contract metadata.contracts) (missing_contract_error id contract)
      ensure (matches requirement provided)
          (contract_error id contract requirement metadata.release provided)
      check_contracts id rest

    unfoldable pub check_module : Text → ModuleInstallation X → Outcome ManifestError (Unit {0})
    unfolding check_contracts
    check_module id installation = do
      supported ← or_fail (get id metadata.modules) (unknown_error id)
      ensure (version_eq installation.version supported.version)
          (version_error id installation.version metadata.release supported.version)
      check_contracts id supported.contract_requirements

    unfoldable pub check_modules :
        BTreeMap (ModuleInstallation X) → Outcome ManifestError (Unit {0})
    unfolding check_module
    check_modules [] = returns tt
    check_modules ((id, installation) ∷ rest) = do check_module id installation; check_modules rest

    module _ (enabled : BTreeMap (ModuleInstallation X)) where
      unfoldable pub check_required : Text → BTreeSet → Outcome ManifestError (Unit {0})
      unfolding module_exists
      check_required id [] = returns tt
      check_required id (dependency ∷ rest) = do
        ensure (module_exists enabled dependency) (dependency_error id dependency)
        check_required id rest

      -- The loop over `manifest.modules.keys()`, which indexes the metadata.
      unfoldable pub check_dependencies :
          BTreeMap (ModuleInstallation X) → Outcome ManifestError (Unit {0})
      unfolding check_required
      check_dependencies [] = returns tt
      check_dependencies ((id, _) ∷ rest) = do
        supported ← index (get id metadata.modules)
        check_required id supported.required_dependencies
        check_dependencies rest

  unfoldable pub validate_manifest :
      Manifest X → ReleaseMetadata X → Outcome ManifestError (ValidatedManifest X)
  validate_manifest manifest metadata = do
    ensure (version_eq manifest.release metadata.release)
        (release_error manifest.release metadata.release)
    ensure (contains_mode manifest.deployment_mode metadata.deployment_modes)
        (mode_error manifest.deployment_mode metadata.release)
    check_modules metadata manifest.modules
    check_dependencies metadata manifest.modules manifest.modules
    ensure_acyclic X manifest.modules metadata
    returns (record {
      deployment_mode = manifest.deployment_mode;
      modules = manifest.modules;
      local = manifest.local;
    })

  -- `from_str` is `serde_yaml::from_str::<Manifest>`, its error shown as a text.
  unfoldable pub parse_and_validate :
      (Text → Result Text (Manifest X))
      → Text
      → ReleaseMetadata X
      → Outcome ManifestError (ValidatedManifest X)
  parse_and_validate from_str source metadata = do
    manifest ← of_result (
        map_err {F = ManifestError}
          (λ error. record { message = text "manifest is invalid: " ++ error }) (from_str source))
    validate_manifest manifest metadata
