-- ===== src/Composition/Labels.antt =====
-- What `compose_modules` of core/src/composition.rs makes of a validated manifest.
use better_commerce.Prelude.{
  ◌≡◌, refl, inl, inr, false, some, Text, [], ◌∷◌, BTreeMap, get, put, contains_key, get-put,
  Result, ok, Bool-cases, text_eq, eq_of_text_eq, arith, ◌∙◌,
}
use better_commerce.Prelude.Results.{Result-cases}
use better_commerce.Manifest.Types.{Crates, ModuleInstallation, ValidatedManifest}
use better_commerce.Example.Types.{ExampleConfiguration}
use better_commerce.Example.Configuration.{parse_configuration}
use better_commerce.Example.Module
use better_commerce.Composition.Types.{ComposedModule, example, Composition}
use better_commerce.Composition.Compose.{
  example_id, compose_module, compose_rest, compose_modules, module_of, read_example_label,
}

-- A map has each key once.
abbrev pub HasUniqueKeys : {V : Type 0} → BTreeMap V → Type 0
HasUniqueKeys [] = Unit {0}
HasUniqueKeys ((k, v) ∷ m) = (contains_key k m ≡ false) × HasUniqueKeys m

module _ (X : Crates) (from_value : X.Value → Result Text ExampleConfiguration) where
  -- Composing a module takes the example's configuration.
  pub compose_module-ok :
      (id : Text) (installation : ModuleInstallation X) {m : ComposedModule}
      → compose_module X from_value id installation ≡ ok m
      → (c : ExampleConfiguration) × (parse_configuration from_value installation.configuration
          ≡ ok c)
        × (m ≡ example (Module.new c))
  unfolding compose_module
  compose_module-ok id installation h = elim (Bool-cases (text_eq id example_id)) [
    | inl e ↦ elim (Result-cases (parse_configuration from_value installation.configuration)) [
      | inl (c, p) ↦ (c, p, cc (rw (e, p) at h))
      | inr (error, p) ↦ cc (rw (e, p) at h)
    ]
    | inr e ↦ cc (rw e at h)
  ]

  compose_rest-other :
      (modules : BTreeMap (ModuleInstallation X)) (done : BTreeMap ComposedModule)
      {out : BTreeMap ComposedModule} (id : Text)
      → compose_rest X from_value modules done ≡ ok out
      → contains_key id modules ≡ false
      → get id out ≡ get id done
  unfolding compose_rest contains_key
  compose_rest-other [] done id h free = cc
  compose_rest-other ((k, i) ∷ rest) done {out} id h free =
      elim (Result-cases (compose_module X from_value k i)) [
        | inl (m, e) ↦
            compose_rest-other rest (put k m done) {out = out} id (rw e at h) (ground arith)
            ∙ (get-put k id m done ∙ ground arith)
        | inr (error, e) ↦ cc (rw e at h)
      ]

  compose_rest-found :
      (modules : BTreeMap (ModuleInstallation X)) (done : BTreeMap ComposedModule)
      {out : BTreeMap ComposedModule} (id : Text) (installation : ModuleInstallation X)
      → HasUniqueKeys modules
      → compose_rest X from_value modules done ≡ ok out
      → get id modules ≡ some installation
      → (m : ComposedModule) × (compose_module X from_value id installation ≡ ok m)
        × (get id out ≡ some m)
  unfolding compose_rest get
  compose_rest-found [] done id installation u h found = cc
  compose_rest-found ((k, i) ∷ rest) done {out} id installation u h found =
      elim (Result-cases (compose_module X from_value k i)) [
        | inl (m, e) ↦ elim (Bool-cases (text_eq k id)) [
          | inl same ↦
              let is : k ≡ id = eq_of_text_eq k id same in
              let it : i ≡ installation = cc (rw same at found) in
              (
                m,
                rw (← is, ← it) e,
                compose_rest-other rest (put k m done) {out = out} id (rw e at h) (rw (← is) (u.0))
                    ∙ (get-put k id m done ∙ rw same refl),
              )
          | inr other ↦
              compose_rest-found rest (put k m done) {out = out} id installation (u.1) (rw e at h)
                (rw other at found)
        ]
        | inr (error, e) ↦ cc (rw e at h)
      ]

  -- Where a manifest has each key once and contains the example module, and is composed, the
  -- module's configuration parses, and `read_example_label` gives its label.
  pub compose_modules-label :
      (manifest : ValidatedManifest X) (c : Composition) (installation : ModuleInstallation X)
      → HasUniqueKeys manifest.modules
      → compose_modules X from_value manifest ≡ ok c
      → get example_id manifest.modules ≡ some installation
      → (configuration : ExampleConfiguration) × (parse_configuration from_value
            installation.configuration
          ≡ ok configuration)
        × (read_example_label c ≡ some configuration.label)
  unfolding compose_modules read_example_label module_of
  compose_modules-label manifest c installation u h found =
      elim (Result-cases (compose_rest X from_value manifest.modules [])) [
        | inl (out, e) ↦
            let (m, composed, there) =
              compose_rest-found manifest.modules [] {out = out} example_id installation u e
                found in
            let (configuration, parsed, is) = compose_module-ok example_id installation composed in
            let of : record { modules = out } ≡ c = cc (rw e at h) in
            (configuration, parsed, rw (← of, there, is) refl)
        | inr (error, e) ↦ cc (rw e at h)
      ]
