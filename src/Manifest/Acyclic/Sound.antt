-- ===== src/Manifest/Acyclic/Sound.antt =====
-- What a successful search of core/src/manifest.rs shows.
use mathlib.Core.WellFounded.{Acc}
use better_commerce.Prelude.{
  length, ℕ, zero, suc, ◌≡◌, true, inl, inr, Option, some, none, Text, List, [], ◌∷◌, BTreeMap,
  contains, insert, get, contains_key, Memᴰ, Bool-cases, Outcome, returns, contains-insert,
  mem-contains, contains-keys, text_eq, arith, eq_of_text_eq, subst, sym, keys,
}
use better_commerce.Prelude.Outcomes.{index, >>=-eq-returns, ◌>>=◌}
use better_commerce.Manifest.Types.{Crates, ModuleInstallation, ReleaseMetadata, ManifestError}
use better_commerce.Manifest.Acyclic.{
  Marks, Visit, for_each, visit_dependency, enter, leave, visit_dependencies, visit, ensure_acyclic,
}
use better_commerce.Manifest.Acyclic.Chains.{HasEnd}

mem_cases :
    {P : Text → Type 0} {x : Text} {xs : List Text}
    → P x
    → ((d : Text) → Memᴰ d xs → P d)
    → (d : Text) → Memᴰ d (x ∷ xs)
    → P d
mem_cases {P} p ps d (Memᴰ.head e) = subst P (sym e) p
mem_cases p ps d (Memᴰ.tail m) = ps d m

pub same_value :
    {A : Type 0} (o : Option A) (v w : A)
    → index {E = ManifestError} o ≡ returns v
    → o ≡ some w
    → w ≡ v
same_value none v w h k = cc
same_value (some a) v w h k = cc

not_mem : {P : Type 0} {d : Text} → Memᴰ d [] → P
not_mem m = elim m [ ]

module _ (X : Crates) (modules : BTreeMap (ModuleInstallation X))
    (metadata : ReleaseMetadata X) where
  abbrev Ends : Text → Type 0
  Ends = HasEnd X modules metadata

  -- The visited modules have an end.
  abbrev Finished : Marks → Type 0
  Finished s = (v : Text) → contains v s.visited ≡ true → Ends v

  Finished-eq :
      (s s' : Marks)
      → ◌≡◌ {A = Outcome ManifestError Marks} (returns s) (returns s')
      → Finished s
      → Finished s'
  Finished-eq s s' e f = subst Finished {x = s} {y = s'} (cc) f

  -- If `body` succeeds, it keeps the finished modules finished, and shows `P`.
  abbrev Shows : (P : Text → Type 0) → (Text → Visit) → Type 0
  Shows P body = (d : Text) (s s' : Marks) → body d s ≡ returns s' → Finished s → P d × Finished s'

  for_each_sound :
      {P : Text → Type 0} (body : Text → Visit) (ds : List Text)
      → Shows P body
      → (s s' : Marks) → for_each body ds s ≡ returns s'
      → Finished s
      → ((d : Text) → Memᴰ d ds → P d) × Finished s'
  unfolding for_each
  for_each_sound body [] h s s' e f = ((λ d m. not_mem m), Finished-eq s s' e f)
  for_each_sound body (x ∷ ds) h s s' e f =
      let (s₁, first, rest) = >>=-eq-returns (body x s) (for_each body ds) e in
      let (p, f₁) = h x s s₁ first f in
      let (ps, f₂) = for_each_sound body ds h s₁ s' rest f₁ in (mem_cases p ps, f₂)

  visit_dependency-Shows :
      (rec : Text → Visit)
      → Shows Ends rec
      → Shows
          (λ d. contains_key d modules ≡ true → Ends d)
          (visit_dependency X modules metadata rec)
  unfolding visit_dependency
  visit_dependency-Shows rec h d s s' e f = elim (Bool-cases (contains_key d modules)) [
    | inl enabled ↦ let (p, f') = h d s s' (rw enabled at e) f in ((λ _. p), f')
    | inr disabled ↦ ((λ enabled. cc), Finished-eq s s' (rw disabled at e) f)
  ]

  leave-Finished : (id : Text) (t : Marks) → Ends id → Finished t → Finished (leave id t)
  unfolding leave
  leave-Finished id t ends f v h = elim (Bool-cases (text_eq id v)) [
    | inl same ↦ subst Ends (eq_of_text_eq id v same) ends
    | inr other ↦ f v (ground (arith, contains-insert id v t.visited))
  ]

  enter_sound : (rec : Text → Visit) → Shows Ends rec → Shows Ends (enter X modules metadata rec)
  unfolding enter visit_dependencies
  enter_sound rec h id s s' e f =
      let (mm, known, e₁) =
        >>=-eq-returns (index (get id metadata.modules))
          (λ mm. visit_dependencies X modules metadata rec id s mm >>= λ t. returns (leave id t))
          e in
      let (t, searched, e₂) =
        >>=-eq-returns (visit_dependencies X modules metadata rec id s mm)
          (λ t. returns (leave id t)) e₁ in
      let (deps, f') =
        for_each_sound (visit_dependency X modules metadata rec) mm.required_dependencies
          (visit_dependency-Shows rec h) (record s { visiting = insert id s.visiting }) t searched
          f in
      let ends : Ends id = Acc.intro id (λ d r.
        deps d
          (subst (λ k. Memᴰ d k.required_dependencies)
            (same_value (get id metadata.modules) mm r.module_metadata known r.known) r.required)
          r.enabled) in
      (ends, Finished-eq (leave id t) s' e₂ (leave-Finished id t ends f'))

  visit_sound : (fuel : ℕ) → Shows Ends (visit X modules metadata fuel)
  unfolding visit
  visit_sound zero id s s' e f = cc
  visit_sound (suc fuel) id s s' e f = elim (Bool-cases (contains id s.visited)) [
    | inl old ↦ (f id old, Finished-eq s s' (rw old at e) f)
    | inr new ↦ elim (Bool-cases (contains id s.visiting)) [
      | inl open_ ↦ let e' = rw (new, open_) at e in cc
      | inr fresh ↦
          enter_sound (visit X modules metadata fuel) (visit_sound fuel) id s s'
            (rw (new, fresh) at e) f
    ]
  ]

  -- If the search succeeds, every chain of dependencies of an enabled module ends.
  pub ensure_acyclic-HasEnd :
      ensure_acyclic X modules metadata ≡ returns tt
      → (id : Text) → contains_key id modules ≡ true
      → HasEnd X modules metadata id
  unfolding ensure_acyclic contains
  ensure_acyclic-HasEnd e id enabled =
      let (t, searched, _) =
        >>=-eq-returns
          (for_each (visit X modules metadata (suc (length modules))) (keys modules)
            (record { visiting = []; visited = [] }))
          (λ _. returns tt) e in
      (for_each_sound (visit X modules metadata (suc (length modules))) (keys modules)
          (visit_sound (suc (length modules))) _ t searched (λ v h. cc)).0
        id (mem-contains id (keys modules) (rw (contains-keys id modules) enabled))
