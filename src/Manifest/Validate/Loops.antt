-- ===== src/Manifest/Validate/Loops.antt =====
-- The loops of `validate_manifest` of core/src/manifest.rs against the predicates that they test.
use better_commerce.Prelude.{
  ◌≡◌, refl, Option-cases, inl, inr, ◌⊎◌, fails, ◌≢◌, true, Text, [], ◌∷◌, ◌++◌, none, BTreeMap,
  BTreeSet, get, contains_key, All, Outcome, returns, panics, out_of_fuel, arith,
}
use better_commerce.Manifest.Types.{Crates, ManifestError, ModuleInstallation, ReleaseMetadata}
use better_commerce.Manifest.Validate.{
  check_contracts, check_module, check_modules, check_required, check_dependencies, unknown_error,
}
use better_commerce.Manifest.Validate.Accepts.{IsProvided, IsSupported, HasDependencies}

-- The outcome is a value or an error of the program.
abbrev pub Answers : {A : Type 0} → Outcome ManifestError A → Type 0
Answers o = (o ≢ panics) × (o ≢ out_of_fuel)

pub Outcome-cases : (o : Outcome ManifestError (Unit {0})) → (o ≡ returns tt) ⊎ (o ≢ returns tt)
Outcome-cases (returns tt) = inl refl
Outcome-cases (fails e) = inr (λ h. cc)
Outcome-cases panics = inr (λ h. cc)
Outcome-cases out_of_fuel = inr (λ h. cc)

pub Answers-settled :
    {A : Type 0} (o : Outcome ManifestError A)
    → Answers o
    → ((a : A) × (o ≡ returns a)) ⊎ ((e : ManifestError) × (o ≡ fails e))
Answers-settled (returns a) h = inl (a, refl)
Answers-settled (fails e) h = inr (e, refl)
Answers-settled panics h = absurd (h.0 refl)
Answers-settled out_of_fuel h = absurd (h.1 refl)

module _ (X : Crates) (metadata : ReleaseMetadata X) where
  open X use {VersionReq, version_eq_iff}

  check_contracts-IsProvided :
      (id : Text) (cs : BTreeMap VersionReq)
      → check_contracts X metadata id cs ≡ returns tt
      → All (IsProvided X metadata) cs
  unfolding check_contracts
  check_contracts-IsProvided id [] h = tt
  check_contracts-IsProvided id ((c, r) ∷ cs) h = elim (Option-cases (get c metadata.contracts)) [
    | inl e ↦ absurd (ground arith)
    | inr (v, e) ↦ ((v, e, ground arith), check_contracts-IsProvided id cs (ground arith))
  ]

  check_contracts-returns :
      (id : Text) (cs : BTreeMap VersionReq)
      → All (IsProvided X metadata) cs
      → check_contracts X metadata id cs ≡ returns tt
  unfolding check_contracts
  check_contracts-returns id [] h = refl
  check_contracts-returns id ((c, r) ∷ cs) (p, ps) =
      ground (arith, check_contracts-returns id cs ps)

  check_contracts-Answers :
      (id : Text) (cs : BTreeMap VersionReq) → Answers (check_contracts X metadata id cs)
  unfolding check_contracts
  check_contracts-Answers id [] = ground arith
  check_contracts-Answers id ((c, r) ∷ cs) = ground (arith, check_contracts-Answers id cs)

  check_module-IsSupported :
      (e : Text × ModuleInstallation X)
      → check_module X metadata e.0 e.1 ≡ returns tt
      → IsSupported X metadata e
  unfolding check_module
  check_module-IsSupported (id, i) h = elim (Option-cases (get id metadata.modules)) [
    | inl e ↦ absurd (ground arith)
    | inr (m, e) ↦ record {
      supported = m;
      known = e;
      exact = ground (arith, version_eq_iff i.version m.version);
      provided = check_contracts-IsProvided id m.contract_requirements (ground arith);
    }
  ]

  check_module-returns :
      (e : Text × ModuleInstallation X)
      → IsSupported X metadata e
      → check_module X metadata e.0 e.1 ≡ returns tt
  unfolding check_module
  check_module-returns (id, i) s = ground (
    arith,
    version_eq_iff i.version s.supported.version,
    check_contracts-returns id s.supported.contract_requirements s.provided,
  )

  check_module-Answers :
      (id : Text) (i : ModuleInstallation X) → Answers (check_module X metadata id i)
  unfolding check_module
  check_module-Answers id i = elim (Option-cases (get id metadata.modules)) [
    | inl e ↦ ground arith
    | inr (m, e) ↦ ground (arith, check_contracts-Answers id m.contract_requirements)
  ]

  pub check_modules-IsSupported :
      (es : BTreeMap (ModuleInstallation X))
      → check_modules X metadata es ≡ returns tt
      → All (IsSupported X metadata) es
  unfolding check_modules
  check_modules-IsSupported [] h = tt
  check_modules-IsSupported ((id, i) ∷ es) h =
      (check_module-IsSupported (id, i) (ground arith), check_modules-IsSupported es (ground arith))

  pub check_modules-returns :
      (es : BTreeMap (ModuleInstallation X))
      → All (IsSupported X metadata) es
      → check_modules X metadata es ≡ returns tt
  unfolding check_modules
  check_modules-returns [] h = refl
  check_modules-returns ((id, i) ∷ es) (s, ss) =
      rw (check_module-returns (id, i) s) (check_modules-returns es ss)

  pub check_modules-Answers :
      (es : BTreeMap (ModuleInstallation X)) → Answers (check_modules X metadata es)
  unfolding check_modules
  check_modules-Answers [] = ground arith
  check_modules-Answers ((id, i) ∷ es) =
      ground (arith, check_module-Answers id i, check_modules-Answers es)

  module _ (enabled : BTreeMap (ModuleInstallation X)) where
    abbrev Enabled : Text → Type 0
    Enabled d = contains_key d enabled ≡ true

    check_required-Enabled :
        (id : Text) (ds : BTreeSet)
        → check_required X metadata enabled id ds ≡ returns tt
        → All Enabled ds
    unfolding check_required
    check_required-Enabled id [] h = tt
    check_required-Enabled id (d ∷ ds) h =
        (ground arith, check_required-Enabled id ds (ground arith))

    check_required-returns :
        (id : Text) (ds : BTreeSet)
        → All Enabled ds
        → check_required X metadata enabled id ds ≡ returns tt
    unfolding check_required
    check_required-returns id [] h = refl
    check_required-returns id (d ∷ ds) (p, ps) = rw p (check_required-returns id ds ps)

    check_required-Answers :
        (id : Text) (ds : BTreeSet) → Answers (check_required X metadata enabled id ds)
    unfolding check_required
    check_required-Answers id [] = ground arith
    check_required-Answers id (d ∷ ds) = ground (arith, check_required-Answers id ds)

    abbrev Satisfied : Text × ModuleInstallation X → Type 0
    Satisfied e = HasDependencies X metadata enabled (e.0)

    pub check_dependencies-Satisfied :
        (es : BTreeMap (ModuleInstallation X))
        → check_dependencies X metadata enabled es ≡ returns tt
        → All Satisfied es
    unfolding check_dependencies
    check_dependencies-Satisfied [] h = tt
    check_dependencies-Satisfied ((id, i) ∷ es) h = elim (Option-cases (get id metadata.modules)) [
      | inl e ↦ absurd (ground arith)
      | inr (m, e) ↦ (
        record {
          supported = m;
          known = e;
          all_enabled = check_required-Enabled id m.required_dependencies (ground arith);
        },
        check_dependencies-Satisfied es (ground arith),
      )
    ]

    pub check_dependencies-returns :
        (es : BTreeMap (ModuleInstallation X))
        → All Satisfied es
        → check_dependencies X metadata enabled es ≡ returns tt
    unfolding check_dependencies
    check_dependencies-returns [] h = refl
    check_dependencies-returns ((id, i) ∷ es) (p, ps) =
        rw (p.known, check_required-returns id p.supported.required_dependencies p.all_enabled)
          (check_dependencies-returns es ps)

    -- The index into the metadata does not panic, once the modules are known to be supported.
    pub check_dependencies-Answers :
        (es : BTreeMap (ModuleInstallation X))
        → All (IsSupported X metadata) es
        → Answers (check_dependencies X metadata enabled es)
    unfolding check_dependencies
    check_dependencies-Answers [] h = ground arith
    check_dependencies-Answers ((id, i) ∷ es) (p, ps) = ground (
      arith,
      p.known,
      check_required-Answers id p.supported.required_dependencies,
      check_dependencies-Answers es ps,
    )

  -- The loop stops at the first module that the release does not know.
  pub check_modules-unknown :
      (before rest : BTreeMap (ModuleInstallation X)) (id : Text) (i : ModuleInstallation X)
      → All (IsSupported X metadata) before
      → get id metadata.modules ≡ none
      → check_modules X metadata (before ++ (id, i) ∷ rest) ≡ fails (unknown_error X id)
  unfolding check_modules
  check_modules-unknown [] rest id i h absent = rw absent
  check_modules-unknown ((j, k) ∷ before) rest id i (p, ps) absent =
      rw (check_module-returns (j, k) p) (check_modules-unknown before rest id i ps absent)
