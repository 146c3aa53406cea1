-- ===== src/Manifest/Validate/Decides.antt =====
-- `validate_manifest` of core/src/manifest.rs against its description in Accepts.
use better_commerce.Prelude.{
  ◌≡◌, ◌↔◌, ◌⊎◌, inl, inr, true, none, Text, [], ◌∷◌, ◌++◌, BTreeMap, get, contains_key, All,
  returns, fails, Bool-cases, arith, text_eq, eq_of_text_eq, subst, get-contains_key,
}
use better_commerce.Prelude.Outcomes.{◌>>◌}
use better_commerce.Manifest.Types.{
  Crates, Manifest, ManifestError, ModuleInstallation, ReleaseMetadata, ValidatedManifest,
}
use better_commerce.Manifest.Acyclic.{ensure_acyclic, cycle_error}
use better_commerce.Manifest.Acyclic.Chains.{Chain, HasEnd-not-Chain, Chain-enabled}
use better_commerce.Manifest.Acyclic.Sound.{ensure_acyclic-HasEnd}
use better_commerce.Manifest.Acyclic.Complete.{ensure_acyclic-answers}
use better_commerce.Manifest.Validate.{
  contains_mode, validate_manifest, check_modules, unknown_error,
}
use better_commerce.Manifest.Validate.Accepts.{IsSupported, HasDependencies, Accepts, accepted}
use better_commerce.Manifest.Validate.Loops.{
  Answers, Outcome-cases, Answers-settled, check_modules-IsSupported, check_modules-returns,
  check_modules-Answers, check_modules-unknown, check_dependencies-Satisfied,
  check_dependencies-returns, check_dependencies-Answers,
}

-- An enabled module of which all entries are supported is known to the release.
supported-known :
    (X : Crates) (metadata : ReleaseMetadata X) (es : BTreeMap (ModuleInstallation X))
    → All (IsSupported X metadata) es
    → (id : Text) → contains_key id es ≡ true
    → contains_key id metadata.modules ≡ true
unfolding contains_key
supported-known X metadata [] h id on = cc
supported-known X metadata ((j, i) ∷ es) (p, ps) id on = elim (Bool-cases (text_eq j id)) [
  | inl e ↦
      subst (λ k. contains_key k metadata.modules ≡ true) (eq_of_text_eq j id e)
        (get-contains_key j metadata.modules p.known)
  | inr e ↦ supported-known X metadata es ps id (rw e at on)
]

module _ (X : Crates) (manifest : Manifest X) (metadata : ReleaseMetadata X) where
  open X use {version_eq, version_eq_iff}

  validate_manifest-Accepts :
      {v : ValidatedManifest X}
      → validate_manifest X manifest metadata ≡ returns v
      → Accepts X metadata manifest × (v ≡ accepted X metadata manifest)
  unfolding validate_manifest
  validate_manifest-Accepts {v} h =
      let modules_ok : All (IsSupported X metadata) manifest.modules =
        check_modules-IsSupported X metadata manifest.modules (ground arith) in
      (
        record {
          release = ground (arith, version_eq_iff manifest.release metadata.release);
          mode = ground arith;
          modules_supported = modules_ok;
          dependencies =
              check_dependencies-Satisfied X metadata manifest.modules manifest.modules
                (ground arith);
          acyclic = ensure_acyclic-HasEnd X manifest.modules metadata (ground arith);
        },
        ground arith,
      )

  -- The checks before the search for cycles pass.
  reach :
      manifest.release ≡ metadata.release
      → contains_mode manifest.deployment_mode metadata.deployment_modes ≡ true
      → All (IsSupported X metadata) manifest.modules
      → All (λ e. HasDependencies X metadata manifest.modules (e.0)) manifest.modules
      → validate_manifest X manifest metadata
        ≡ (ensure_acyclic X manifest.modules metadata >> returns (accepted X metadata manifest))
  unfolding validate_manifest
  reach r m s d = rw (
    (version_eq_iff manifest.release metadata.release).1 r,
    m,
    check_modules-returns X metadata manifest.modules s,
    check_dependencies-returns X metadata manifest.modules manifest.modules d,
  )

  Accepts-validate_manifest :
      Accepts X metadata manifest
      → validate_manifest X manifest metadata ≡ returns (accepted X metadata manifest)
  Accepts-validate_manifest a =
      elim (ensure_acyclic-answers X manifest.modules metadata
        (supported-known X metadata manifest.modules a.modules_supported)) [
          | inl e ↦ rw (reach a.release a.mode a.modules_supported a.dependencies) (rw e)
          | inr (c, _, cycle) ↦ absurd (
              HasEnd-not-Chain X manifest.modules metadata
                (a.acyclic c (Chain-enabled X manifest.modules metadata cycle)) cycle)
        ]

  -- Validation succeeds exactly on the manifests that its description accepts, and then hands on
  -- the deployment mode, the modules and the local deployment unchanged.
  pub validate_manifest-Accepts_iff :
      (v : ValidatedManifest X)
      → (validate_manifest X manifest metadata ≡ returns v)
        ↔ (Accepts X metadata manifest × (v ≡ accepted X metadata manifest))
  validate_manifest-Accepts_iff v =
      (validate_manifest-Accepts, λ (a, e). rw e (Accepts-validate_manifest a))

  validate_manifest-Answers : Answers (validate_manifest X manifest metadata)
  unfolding validate_manifest
  validate_manifest-Answers = elim (Outcome-cases (check_modules X metadata manifest.modules)) [
    | inl passed ↦
        let modules_ok : All (IsSupported X metadata) manifest.modules =
          check_modules-IsSupported X metadata manifest.modules passed in
        ground (
          arith,
          passed,
          check_dependencies-Answers X metadata manifest.modules manifest.modules modules_ok,
          ensure_acyclic-answers X manifest.modules metadata
              (supported-known X metadata manifest.modules modules_ok),
        )
    | inr other ↦ ground (arith, other, check_modules-Answers X metadata manifest.modules)
  ]

  -- Validation always answers with a manifest or an error: no index panics, and the fuel of the
  -- cycle search suffices.
  pub validate_manifest-total :
      ((v : ValidatedManifest X) × (validate_manifest X manifest metadata ≡ returns v))
      ⊎ ((e : ManifestError) × (validate_manifest X manifest metadata ≡ fails e))
  validate_manifest-total =
      Answers-settled (validate_manifest X manifest metadata) validate_manifest-Answers

  -- Where all else is in order, validation accepts, or it names a module that is on a cycle of
  -- required dependencies.
  pub validate_manifest-cycle :
      manifest.release ≡ metadata.release
      → contains_mode manifest.deployment_mode metadata.deployment_modes ≡ true
      → All (IsSupported X metadata) manifest.modules
      → All (λ e. HasDependencies X metadata manifest.modules (e.0)) manifest.modules
      → (validate_manifest X manifest metadata ≡ returns (accepted X metadata manifest))
        ⊎ ((c : Text) × (validate_manifest X manifest metadata ≡ fails (cycle_error c))
            × Chain X manifest.modules metadata c c)
  validate_manifest-cycle r m s d =
      elim (ensure_acyclic-answers X manifest.modules metadata
        (supported-known X metadata manifest.modules s)) [
          | inl e ↦ inl (rw (reach r m s d) (rw e))
          | inr (c, e, cycle) ↦ inr (c, rw (reach r m s d) (rw e), cycle)
        ]

  -- The first module in the order of the keys that the release does not know is named.
  pub validate_manifest-unknown :
      (before rest : BTreeMap (ModuleInstallation X)) (id : Text) (i : ModuleInstallation X)
      → manifest.release ≡ metadata.release
      → contains_mode manifest.deployment_mode metadata.deployment_modes ≡ true
      → manifest.modules ≡ before ++ (id, i) ∷ rest
      → All (IsSupported X metadata) before
      → get id metadata.modules ≡ none
      → validate_manifest X manifest metadata ≡ fails (unknown_error X id)
  unfolding validate_manifest
  validate_manifest-unknown before rest id i r m split s absent =
      rw ((version_eq_iff manifest.release metadata.release).1 r, m, split)
        (rw (check_modules-unknown X metadata before rest id i s absent))
