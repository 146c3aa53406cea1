-- ===== src/Composition/Only.antt =====
-- Which modules a composition of core/src/composition.rs has.
use better_commerce.Prelude.{
  ◌≡◌, refl, ◌∙◌, ◌⊎◌, inl, inr, true, ◌||◌, some, Text, [], ◌∷◌, BTreeMap, get, put, contains_key,
  Result, ok, Bool-cases, is_some, text_eq, text_eq_refl, eq_of_text_eq, arith,
}
use better_commerce.Prelude.Results.{bind-ok, ok_value}
use better_commerce.Manifest.Types.{Crates, ModuleInstallation, ValidatedManifest}
use better_commerce.Example.Types.{ExampleConfiguration}
use better_commerce.Composition.Types.{ComposedModule, Composition}
use better_commerce.Composition.Compose.{
  example_id, compose_module, compose_rest, compose_modules, module_of,
}

-- There is no module, or only the example.
abbrev pub IsOnlyExample : BTreeMap ComposedModule → Type 0
IsOnlyExample modules = (modules ≡ []) ⊎ ((m : ComposedModule) × (modules ≡ (example_id, m) ∷ []))

put-IsOnlyExample :
    (m : ComposedModule) (modules : BTreeMap ComposedModule)
    → IsOnlyExample modules
    → put example_id m modules ≡ (example_id, m) ∷ []
unfolding put
put-IsOnlyExample m modules (inl e) = rw e refl
put-IsOnlyExample m modules (inr (n, e)) = rw (e, text_eq_refl example_id) refl

get_single : (m : ComposedModule) → get example_id ((example_id, m) ∷ []) ≡ some m
unfolding get
get_single m = rw (text_eq_refl example_id) refl

module _ (X : Crates) (from_value : X.Value → Result Text ExampleConfiguration) where
  compose_module-example_id :
      (id : Text) (installation : ModuleInstallation X) {m : ComposedModule}
      → compose_module X from_value id installation ≡ ok m
      → text_eq id example_id ≡ true
  unfolding compose_module
  compose_module-example_id id installation h = elim (Bool-cases (text_eq id example_id)) [
    | inl e ↦ e
    | inr e ↦ cc (rw e at h)
  ]

  compose_rest-IsOnlyExample :
      (modules : BTreeMap (ModuleInstallation X)) (done : BTreeMap ComposedModule)
      {out : BTreeMap ComposedModule}
      → IsOnlyExample done
      → compose_rest X from_value modules done ≡ ok out
      → IsOnlyExample out
        × (is_some (get example_id out)
            ≡ (contains_key example_id modules || is_some (get example_id done)))
  unfolding compose_rest contains_key
  compose_rest-IsOnlyExample [] done {out} only h =
      let is : done ≡ out = ok_value h in (rw (← is) only, rw (← is) refl)
  compose_rest-IsOnlyExample ((k, i) ∷ rest) done {out} only h =
      let (m, (composed, later)) =
        bind-ok (compose_module X from_value k i)
          (λ m. compose_rest X from_value rest (put k m done)) h in
      let here : text_eq k example_id ≡ true = compose_module-example_id k i composed in
      let is : put k m done ≡ (example_id, m) ∷ [] =
        rw (eq_of_text_eq k example_id here) (put-IsOnlyExample m done only) in
      let (a, b) =
        compose_rest-IsOnlyExample rest ((example_id, m) ∷ []) {out = out} (inr (m, refl))
          (rw is at later) in
      (a, rw (b, here, get_single m) (ground arith))

  pub compose_modules-IsOnlyExample :
      (manifest : ValidatedManifest X) {c : Composition}
      → compose_modules X from_value manifest ≡ ok c
      → IsOnlyExample c.modules
        × (is_some (module_of example_id c) ≡ contains_key example_id manifest.modules)
  unfolding compose_modules module_of get
  compose_modules-IsOnlyExample manifest {c} h =
      let (out, (e, is)) = bind-ok (compose_rest X from_value manifest.modules []) _ h in
      let of : record { modules = out } ≡ c = ok_value is in
      let (a, b) = compose_rest-IsOnlyExample manifest.modules [] {out = out} (inl refl) e in
      (rw (← of) a, rw (← of) (b ∙ ground arith))
