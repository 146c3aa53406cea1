-- ===== src/Composition/Supported.antt =====
-- Manifests that pass the validation for the release of core/src/manifest.rs, and their composition.
use better_commerce.Prelude.{
  ◌≡◌, refl, ◌⊎◌, inl, inr, true, some, Text, text, [], ◌∷◌, BTreeMap, get, put, All, All-map,
  Option-cases, Result, ok, err, returns, text_eq, text_eq_comm, ap, Outcome, sym, arith,
}
use better_commerce.Manifest.Types.{
  Crates, Manifest, ManifestError, ModuleInstallation, ModuleMetadata, ValidatedManifest,
  ReleaseMetadata,
}
use better_commerce.Manifest.Validate.{
  validate_manifest, supported_release_metadata, foundation_contract,
}
use better_commerce.Manifest.Validate.Decides.{validate_manifest-Accepts_iff}
use better_commerce.Example.Types.{ExampleConfiguration, ExampleConfigurationError}
use better_commerce.Example.Configuration.{parse_configuration}
use better_commerce.Example.Module
use better_commerce.Composition.Types.{ComposedModule, example, Composition}
use better_commerce.Composition.Compose.{
  example_id, configuration_error, compose_module, compose_rest, compose_modules,
}
use better_commerce.Prelude.Results.{Result-cases}

module _ (X : Crates) where
  abbrev modules_of : Outcome ManifestError (ReleaseMetadata X) → BTreeMap (ModuleMetadata X)
  modules_of (returns metadata) = metadata.modules
  modules_of _ = []

  -- The release has the one module.
  supported-modules :
      {metadata : ReleaseMetadata X}
      → supported_release_metadata X ≡ returns metadata
      → (s : ModuleMetadata X) × (metadata.modules ≡ (example_id, s) ∷ [])
  unfolding supported_release_metadata
  supported-modules e = elim (Option-cases (X.parse_req (text "^1.0"))) [
    | inl p ↦ cc (rw p at e)
    | inr (r, p) ↦ (
      record {
        version = X.version 0 1 0;
        required_dependencies = [];
        contract_requirements = (foundation_contract, r) ∷ [];
      },
      sym (ap modules_of (rw p at e)),
    )
  ]

  supported-example :
      {metadata : ReleaseMetadata X} {s : ModuleMetadata X} (id : Text)
      → supported_release_metadata X ≡ returns metadata
      → get id metadata.modules ≡ some s
      → text_eq id example_id ≡ true
  unfolding get
  supported-example id e known =
      let (m, only) = supported-modules e in
      ground (arith, rw only at known, text_eq_comm example_id id)

  module _ (from_value : X.Value → Result Text ExampleConfiguration) where
    compose_example :
        (id : Text) (installation : ModuleInstallation X)
        → text_eq id example_id ≡ true
        → ((m : ComposedModule) × (compose_module X from_value id installation ≡ ok m))
          ⊎ ((error : ExampleConfigurationError) × (compose_module X from_value id installation
                ≡ err (configuration_error error)))
    unfolding compose_module
    compose_example id installation e =
        elim (Result-cases (parse_configuration from_value installation.configuration)) [
          | inl (c, p) ↦ inl (example (Module.new c), rw (e, p) refl)
          | inr (error, p) ↦ inr (error, rw (e, p) refl)
        ]

    compose_rest-examples :
        (modules : BTreeMap (ModuleInstallation X)) (done : BTreeMap ComposedModule)
        → All (λ e. text_eq (e.0) example_id ≡ true) modules
        → ((out : BTreeMap ComposedModule) × (compose_rest X from_value modules done ≡ ok out))
          ⊎ ((error : ExampleConfigurationError) × (compose_rest X from_value modules done
                ≡ err (configuration_error error)))
    unfolding compose_rest
    compose_rest-examples [] done all = inl (done, refl)
    compose_rest-examples ((k, i) ∷ rest) done all = elim (compose_example k i (all.0)) [
      | inl (m, e) ↦ rw e (compose_rest-examples rest (put k m done) (all.1))
      | inr (error, e) ↦ inr (error, rw e refl)
    ]

    -- A manifest that is valid for the supported release is composed, or the configuration of the
    -- example module is refused: no module lacks its composition.
    pub compose_modules_supported :
        {metadata : ReleaseMetadata X} (manifest : Manifest X) (v : ValidatedManifest X)
        → supported_release_metadata X ≡ returns metadata
        → validate_manifest X manifest metadata ≡ returns v
        → ((c : Composition) × (compose_modules X from_value v ≡ ok c))
          ⊎ ((error : ExampleConfigurationError) × (compose_modules X from_value v
                ≡ err (configuration_error error)))
    unfolding compose_modules
    compose_modules_supported {metadata} manifest v e valid =
        let (a, is) = (validate_manifest-Accepts_iff X manifest metadata v).0 valid in
        let all : All (λ m. text_eq (m.0) example_id ≡ true) manifest.modules =
          All-map manifest.modules (λ m s. supported-example (m.0) e s.known) a.modules_supported in
        rw is (elim (compose_rest-examples manifest.modules [] all) [
          | inl (out, done) ↦ inl (record { modules = out }, rw done refl)
          | inr (error, done) ↦ inr (error, rw done refl)
        ])
