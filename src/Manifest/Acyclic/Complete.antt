-- ===== src/Manifest/Acyclic/Complete.antt =====
-- The search of core/src/manifest.rs always answers: it neither panics nor runs out of the model's
-- fuel, and it names a module of a real cycle if it fails.
use better_commerce.Prelude.{
  length, length-map, ℕ, zero, suc, ◌≤◌, ◌<◌, ◌≡◌, refl, true, false, ◌⊎◌, inl, inr, Text, List, [],
  ◌∷◌, BTreeMap, BTreeSet, contains, insert, contains_key, keys, Bool-cases, if◌then◌else◌, Outcome,
  returns, fails, contains-insert, contains-remove, text_eq, text_eq_iff, eq_of_text_eq,
  contains_key-get, contains-keys, contains-mem, Memᴰ, subst, arith, ◌∙◌,
}
use better_commerce.Manifest.Types.{Crates, ModuleInstallation, ReleaseMetadata, ManifestError}
use better_commerce.Manifest.Acyclic.{
  Marks, Visit, for_each, visit_dependency, visit_dependencies, enter, leave, visit, ensure_acyclic,
  cycle_error,
}
use better_commerce.Manifest.Acyclic.Chains.{Requires, Chain, one, Chain-snoc}

-- The keys that are not on the current path.
remaining : BTreeSet → List Text → ℕ
remaining v [] = 0
remaining v (k ∷ ks) = if contains k v then remaining v ks else suc (remaining v ks)

abbrev SameSet : BTreeSet → BTreeSet → Type 0
SameSet v w = (x : Text) → contains x w ≡ contains x v

remaining-SameSet :
    (v w : BTreeSet) (ks : List Text) → SameSet v w → remaining w ks ≡ remaining v ks
unfolding remaining
remaining-SameSet v w [] h = refl
remaining-SameSet v w (k ∷ ks) h = ground (arith, h k, remaining-SameSet v w ks h)

remaining-insert_le :
    (id : Text) (v : BTreeSet) (ks : List Text) → remaining (insert id v) ks ≤ remaining v ks
unfolding remaining
remaining-insert_le id v [] = omega arith
remaining-insert_le id v (k ∷ ks) =
    ground (arith, contains-insert id k v, remaining-insert_le id v ks)

remaining-insert_lt :
    (id : Text) (v : BTreeSet) (ks : List Text)
    → contains id v ≡ false
    → contains id ks ≡ true
    → remaining (insert id v) ks < remaining v ks
unfolding remaining contains
remaining-insert_lt id v [] fresh h = cc
remaining-insert_lt id v (k ∷ ks) fresh h = ground (
  arith,
  text_eq_iff k id,
  text_eq_iff id k,
  contains-insert id k v,
  remaining-insert_le id v ks,
  remaining-insert_lt id v ks fresh,
)

remaining-le_length : (v : BTreeSet) (ks : List Text) → remaining v ks ≤ length ks
unfolding remaining
remaining-le_length v [] = omega arith
remaining-le_length v (k ∷ ks) = ground (arith, remaining-le_length v ks)

abbrev Same : Marks → Marks → Type 0
Same s t = SameSet s.visiting t.visiting

module _ (X : Crates) (modules : BTreeMap (ModuleInstallation X)) (metadata : ReleaseMetadata X)
    (all_known : (id : Text)
      → contains_key id modules ≡ true
      → contains_key id metadata.modules ≡ true) where
  abbrev On : Text → Text → Type 0
  On = Chain X modules metadata

  -- The marks come back as they were, or the failure names a module that requires itself.
  abbrev Answers : Marks → Outcome ManifestError Marks → Type 0
  Answers s o =
      ((t : Marks) × (o ≡ returns t) × Same s t)
      ⊎ ((c : Text) × (o ≡ fails (cycle_error c)) × On c c)

  for_each-Answers :
      (body : Text → Visit) (ds : List Text) (s s₀ : Marks)
      → Same s₀ s
      → ((d : Text) (t : Marks) → Memᴰ d ds → Same s₀ t → Answers t (body d t))
      → Answers s (for_each body ds s)
  unfolding for_each
  for_each-Answers body [] s s₀ e h = inl (s, refl, λ x. refl)
  for_each-Answers body (d ∷ ds) s s₀ e h = elim (h d s (Memᴰ.head refl) e) [
    | inl (t, r, same) ↦
        elim (for_each-Answers body ds t s₀ (λ x. same x ∙ e x)
          (λ d' t' m. h d' t' (Memᴰ.tail m))) [
            | inl (u, r', same') ↦ inl (u, rw r r', λ x. same' x ∙ same x)
            | inr (c, r', cycle) ↦ inr (c, rw r r', cycle)
          ]
    | inr (c, r, cycle) ↦ inr (c, rw r, cycle)
  ]

  -- Every module on the current path leads to `id`.
  abbrev Trail : Marks → Text → Type 0
  Trail s id = (x : Text) → contains x s.visiting ≡ true → On x id

  -- What `visit` does with the fuel `n`.
  abbrev Total : ℕ → (Text → Visit) → Type 0
  Total n rec =
      (id : Text) (s : Marks)
      → remaining s.visiting (keys modules) < n
      → contains_key id modules ≡ true
      → Trail s id
      → Answers s (rec id s)

  leave-Same :
      (id : Text) (s t : Marks)
      → contains id s.visiting ≡ false
      → SameSet (insert id s.visiting) t.visiting
      → Same s (leave id t)
  unfolding leave
  leave-Same id s t fresh same x = ground (
    arith,
    contains-remove id x t.visiting,
    same x,
    contains-insert id x s.visiting,
    text_eq_iff id x,
  )

  dependency-Answers :
      (n : ℕ) (rec : Text → Visit)
      → Total n rec
      → (id d : Text) (s t : Marks) → remaining s.visiting (keys modules) < suc n
      → contains_key id modules ≡ true
      → Trail s id
      → contains id s.visiting ≡ false
      → SameSet (insert id s.visiting) t.visiting
      → (contains_key d modules ≡ true → Requires X modules metadata id d)
      → Answers t (visit_dependency X modules metadata rec d t)
  unfolding visit_dependency
  dependency-Answers n rec total id d s t fits enabled trail fresh same requires =
      elim (Bool-cases (contains_key d modules)) [
        | inl on ↦ rw on (total d t smaller on (longer on))
        | inr off ↦ inl (t, rw off, λ x. refl)
      ]
    where
      smaller : remaining t.visiting (keys modules) < n
      smaller = omega (
        arith,
        remaining-SameSet (insert id s.visiting) t.visiting (keys modules) same,
        remaining-insert_lt id s.visiting (keys modules) fresh
            (rw (contains-keys id modules) enabled),
      )

      longer : contains_key d modules ≡ true → Trail t d
      longer on x h = elim (Bool-cases (text_eq id x)) [
        | inl e ↦ subst (λ y. On y d) (eq_of_text_eq id x e) (one (requires on))
        | inr e ↦
            Chain-snoc X modules metadata
              (trail x (ground (arith, same x, contains-insert id x s.visiting))) (requires on)
      ]

  enter-Answers :
      (n : ℕ) (rec : Text → Visit)
      → Total n rec
      → (id : Text) (s : Marks) → remaining s.visiting (keys modules) < suc n
      → contains_key id modules ≡ true
      → Trail s id
      → contains id s.visiting ≡ false
      → Answers s (enter X modules metadata rec id s)
  unfolding enter visit_dependencies
  enter-Answers n rec total id s fits enabled trail fresh =
      let (mm, known) = contains_key-get id metadata.modules (all_known id enabled) in
      let inside : Marks = record s { visiting = insert id s.visiting } in
      elim (for_each-Answers (visit_dependency X modules metadata rec) mm.required_dependencies
        inside inside (λ x. refl)
        (λ d t m same.
          dependency-Answers n rec total id d s t fits enabled trail fresh same
            (λ on. record { module_metadata = mm; known = known; required = m; enabled = on }))) [
              | inl (t, r, same) ↦ inl (leave id t, rw (known, r), leave-Same id s t fresh same)
              | inr (c, r, cycle) ↦ inr (c, rw (known, r), cycle)
            ]

  visit_answers : (n : ℕ) → Total n (visit X modules metadata n)
  unfolding visit
  visit_answers zero id s fits enabled trail = absurd (omega arith)
  visit_answers (suc n) id s fits enabled trail = elim (Bool-cases (contains id s.visited)) [
    | inl old ↦ inl (s, rw old, λ x. refl)
    | inr new ↦ elim (Bool-cases (contains id s.visiting)) [
      | inl here ↦ inr (id, rw (new, here), trail id here)
      | inr fresh ↦
          rw (new, fresh)
            (enter-Answers n (visit X modules metadata n) (visit_answers n) id s fits enabled trail
              fresh)
    ]
  ]

  -- The search succeeds, or it names a module that requires itself through a chain of others.
  pub ensure_acyclic-answers :
      (ensure_acyclic X modules metadata ≡ returns tt)
      ⊎ ((c : Text) × (ensure_acyclic X modules metadata ≡ fails (cycle_error c)) × On c c)
  unfolding ensure_acyclic contains
  ensure_acyclic-answers =
      let start : Marks = record { visiting = []; visited = [] } in
      elim (for_each-Answers (visit X modules metadata (suc (length modules))) (keys modules) start
        start (λ x. refl)
        (λ id t m same.
          visit_answers (suc (length modules)) id t
            (omega (
              arith,
              remaining-le_length t.visiting (keys modules),
              length-map (λ (e : Text × ModuleInstallation X). e.0) modules,
            ))
            (rw (← contains-keys id modules) (contains-mem m)) (λ x h. cc (same x)))) [
              | inl (t, r, same) ↦ inl (rw r)
              | inr (c, r, cycle) ↦ inr (c, rw r, cycle)
            ]
