-- ===== src/Manifest/Samples.antt =====
-- Sample manifests and release metadata, after the tests of core/src/manifest.rs.
use better_commerce.Prelude.{
  ℕ, ◌≡◌, ◌↔◌, Bool, true, ◌&&◌, some, none, Text, text, List, [], ◌∷◌, BTreeMap, leb, ◌==◌, arith,
}
use better_commerce.Manifest.Types.{
  Crates, Manifest, ReleaseMetadata, ModuleMetadata, ModuleInstallation, self_hosted, operated,
}
use better_commerce.Manifest.Validate.{foundation_contract}

abbrev pub Triple : Type 0
Triple = record { major : ℕ; minor : ℕ; patch : ℕ }

abbrev pub triple_eq : Triple → Triple → Bool
triple_eq v w = v.major == w.major && (v.minor == w.minor && v.patch == w.patch)

pub triple_eq_iff : (v w : Triple) → (triple_eq v w ≡ true) ↔ (v ≡ w)
triple_eq_iff v w = ground arith

-- Versions as triples, and caret requirements for a major version from 1 on.
abbrev pub crates : Crates
crates = record {
  Version = Triple;
  VersionReq = Triple;
  Value = Text;
  version = λ a b c. record { major = a; minor = b; patch = c };
  version_eq = triple_eq;
  version_eq_iff = triple_eq_iff;
  show_version = λ v. v.major ∷ v.minor ∷ v.patch ∷ [];
  parse_req = λ s. some (record { major = 1; minor = 0; patch = 0 });
  matches = λ r v. v.major == r.major && leb r.minor v.minor;
  show_req = λ r. text "^1.0";
}

abbrev pub release : Triple
release = record { major = 0; minor = 1; patch = 0 }

abbrev pub foundation : BTreeMap Triple
foundation = (foundation_contract, record { major = 1; minor = 0; patch = 0 }) ∷ []

abbrev pub module_with : List Text → ModuleMetadata crates
module_with dependencies = record {
  version = release;
  required_dependencies = dependencies;
  contract_requirements = foundation;
}

abbrev pub metadata : ReleaseMetadata crates
metadata = record {
  release = release;
  deployment_modes = self_hosted ∷ operated ∷ [];
  modules = (text "example", module_with []) ∷ [];
  contracts = foundation;
}

-- Two modules that require one another.
abbrev pub cyclic : ReleaseMetadata crates
cyclic = record metadata {
  modules =
      (text "base", module_with (text "example" ∷ []))
      ∷ (text "example", module_with (text "base" ∷ []))
      ∷ [];
}

abbrev pub install : Text → Text × ModuleInstallation crates
install id = (id, record { version = release; configuration = text "label: Demo" })

abbrev pub manifest_of : List Text → Manifest crates
manifest_of ids = record {
  release = release;
  deployment_mode = self_hosted;
  modules = entries ids;
  local = none;
}
  where
    entries : List Text → BTreeMap (ModuleInstallation crates)
    entries [] = []
    entries (id ∷ ids) = install id ∷ entries ids

abbrev pub demo : Manifest crates
demo = manifest_of (text "example" ∷ [])

abbrev pub pair : Manifest crates
pair = manifest_of (text "base" ∷ text "example" ∷ [])

abbrev pub extra : Manifest crates
extra = manifest_of (text "example" ∷ text "future-module" ∷ [])
