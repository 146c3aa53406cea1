-- ===== src/Manifest/Tests.antt =====
-- Runs of `validate_manifest` that follow the tests of core/src/manifest.rs, and the theorems about
-- it at these inputs.
use better_commerce.Prelude.{
  ◌≡◌, refl, ◌⊎◌, some, Text, text, List, [], ◌∷◌, contains, insert, remove, get, contains_key,
  text_eq, text_lt, fails, returns,
}
use better_commerce.Manifest.Types.{ReleaseMetadata, ValidatedManifest, ManifestError}
use better_commerce.Manifest.Acyclic.{ensure_acyclic, cycle_error}
use better_commerce.Manifest.Acyclic.Chains.{Chain}
use better_commerce.Manifest.Validate.{
  validate_manifest, check_modules, check_dependencies, contains_mode, supported_release_metadata,
  unknown_error,
}
use better_commerce.Manifest.Samples.{
  crates, foundation, module_with, metadata, cyclic, install, demo, pair, extra,
}
use better_commerce.Manifest.Validate.Accepts.{IsSupported, Accepts, accepted}
use better_commerce.Manifest.Validate.Decides.{
  validate_manifest-Accepts_iff, validate_manifest-total, validate_manifest-cycle,
  validate_manifest-unknown,
}

program : Unit {0}
unfolding validate_manifest check_modules check_dependencies contains_mode ensure_acyclic contains
    insert remove get contains_key text_eq text_lt
program = tt

pub supported : supported_release_metadata crates ≡ returns metadata
unfolding supported_release_metadata
supported = refl

pub demo-accepted : validate_manifest crates demo metadata ≡ returns (accepted crates metadata demo)
unfolding program
demo-accepted = refl

pair-cyclic : validate_manifest crates pair cyclic ≡ fails (cycle_error (text "base"))
unfolding program
pair-cyclic = refl

IsSupported-in :
    (m : ReleaseMetadata crates) (id : Text) (ds : List Text)
    → get id m.modules ≡ some (module_with ds)
    → m.contracts ≡ foundation
    → IsSupported crates m (install id)
unfolding get text_eq
IsSupported-in m id ds known contracts = record {
  supported = module_with ds;
  known = known;
  exact = refl;
  provided = ((record { major = 1; minor = 0; patch = 0 }, rw contracts, refl), tt);
}

validate_manifest-Accepts_iff_example :
    Accepts crates metadata demo × (accepted crates metadata demo ≡ accepted crates metadata demo)
validate_manifest-Accepts_iff_example =
    (validate_manifest-Accepts_iff crates demo metadata (accepted crates metadata demo)).0
      demo-accepted

validate_manifest-total_example :
    ((v : ValidatedManifest crates) × (validate_manifest crates pair cyclic ≡ returns v))
    ⊎ ((e : ManifestError) × (validate_manifest crates pair cyclic ≡ fails e))
validate_manifest-total_example = validate_manifest-total crates pair cyclic

validate_manifest-cycle_example :
    (validate_manifest crates pair cyclic ≡ returns (accepted crates cyclic pair))
    ⊎ ((c : Text) × (validate_manifest crates pair cyclic ≡ fails (cycle_error c))
        × Chain crates pair.modules cyclic c c)
unfolding program
validate_manifest-cycle_example =
    validate_manifest-cycle crates pair cyclic refl refl
      (
        IsSupported-in cyclic (text "base") (text "example" ∷ []) refl refl,
        (IsSupported-in cyclic (text "example") (text "base" ∷ []) refl refl, tt),
      )
      (
        record {
          supported = module_with (text "example" ∷ []);
          known = refl;
          all_enabled = (refl, tt);
        },
        (
          record {
            supported = module_with (text "base" ∷ []);
            known = refl;
            all_enabled = (refl, tt);
          },
          tt,
        ),
      )

validate_manifest-unknown_example :
    validate_manifest crates extra metadata ≡ fails (unknown_error crates (text "future-module"))
unfolding program
validate_manifest-unknown_example =
    validate_manifest-unknown crates extra metadata (install (text "example") ∷ []) []
      (text "future-module") (install (text "future-module")).1 refl refl refl
      (IsSupported-in metadata (text "example") [] refl refl, tt) refl
