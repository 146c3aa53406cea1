-- ===== src/Prelude/Trimming.antt =====
-- `str::trim_end_matches` by its defining properties.
use Prim.Native.Nat.{ℕ}
use mathlib.Core.Path.{◌≡◌, refl, ap, subst, sym}
use mathlib.Core.Logic.{inl, inr}
use mathlib.Core.Bool.{Bool, true, false, ◌&&◌}
use mathlib.Core.List.{[], ◌∷◌, ◌++◌, Memᴰ}
use native.Mathlib.Omega.{arith}
use better_commerce.Prelude.Tests.{and-eq-true, Bool-cases}
use better_commerce.Prelude.Strings.{Text}
use better_commerce.Prelude.Chars.{is_empty, trim_end_matches}

head_of : Text → ℕ
head_of [] = 0
head_of (c ∷ s) = c

tail_of : Text → Text
tail_of [] = []
tail_of (c ∷ s) = s

nil_of_empty : (s : Text) → is_empty s ≡ true → s ≡ []
nil_of_empty [] h = refl
nil_of_empty (c ∷ s) h = cc

module _ (test : ℕ → Bool) where
  abbrev AllPass : Text → Type 0
  AllPass s = (c : ℕ) → Memᴰ c s → test c ≡ true

  AllPass-cons : (x : ℕ) (s : Text) → test x ≡ true → AllPass s → AllPass (x ∷ s)
  AllPass-cons x s h good c (Memᴰ.head e) = subst (λ y. test y ≡ true) (sym e) h
  AllPass-cons x s h good c (Memᴰ.tail m) = good c m

  pub trim_end-append :
      (s : Text)
      → (ends : Text) × (s ≡ trim_end_matches test s ++ ends)
        × ((c : ℕ) → Memᴰ c ends → test c ≡ true)
  unfolding trim_end_matches
  trim_end-append [] = ([], refl, λ c m. elim m [ ])
  trim_end-append (x ∷ s) =
      let (ends, e, good) = trim_end-append s in
      elim (Bool-cases (test x && is_empty (trim_end_matches test s))) [
        | inl h ↦
            let (pass, dropped) = and-eq-true _ _ h in
            let same : s ≡ ends = rw (nil_of_empty (trim_end_matches test s) dropped) at e in
            (x ∷ s, rw h refl, AllPass-cons x s pass (subst AllPass (sym same) good))
        | inr h ↦ (ends, rw h (ap (λ r. x ∷ r) e), good)
      ]

  nil-append : (front : Text) (c : ℕ) → ¬ ([] ≡ front ++ c ∷ [])
  nil-append [] c h = cc
  nil-append (y ∷ front) c h = cc

  first_last :
      (x : ℕ) (rest front : Text) (c : ℕ)
      → (test x && is_empty rest) ≡ false
      → ((front : Text) (c : ℕ) → rest ≡ front ++ c ∷ [] → test c ≡ false)
      → x ∷ rest ≡ front ++ c ∷ []
      → test c ≡ false
  unfolding head_of tail_of
  first_last x rest [] c k last h =
      let same : x ≡ c = ap head_of h in
      let none_left : rest ≡ [] = ap tail_of h in
      subst (λ y. test y ≡ false) same (ground (arith, rw none_left at k))
  first_last x rest (y ∷ front) c k last h = last front c (ap tail_of h)

  pub trim_end-last :
      (s front : Text) (c : ℕ) → trim_end_matches test s ≡ front ++ c ∷ [] → test c ≡ false
  unfolding trim_end_matches
  trim_end-last [] [] c h = cc
  trim_end-last [] (y ∷ front) c h = cc
  trim_end-last (x ∷ s) front c h =
      elim (Bool-cases (test x && is_empty (trim_end_matches test s))) [
        | inl k ↦ absurd (nil-append front c (rw k at h))
        | inr k ↦ first_last x (trim_end_matches test s) front c k (trim_end-last s) (rw k at h)
      ]

  trim_all :
      (ends : Text) → ((c : ℕ) → Memᴰ c ends → test c ≡ true) → trim_end_matches test ends ≡ []
  unfolding trim_end_matches
  trim_all [] h = refl
  trim_all (x ∷ ends) h = rw (trim_all ends (λ c m. h c (Memᴰ.tail m)), h x (Memᴰ.head refl)) refl

  longer :
      (x : ℕ) (s : Text) (y : ℕ) (rest : Text)
      → trim_end_matches test s ≡ y ∷ rest
      → trim_end_matches test (x ∷ s) ≡ x ∷ y ∷ rest
  unfolding trim_end_matches
  longer x s y rest h = elim (Bool-cases (test x)) [
    | inl k ↦ rw (k, h) refl
    | inr k ↦ rw (k, h) refl
  ]

  pub trim_end_unique :
      (value ends : Text)
      → ((c : ℕ) → Memᴰ c ends → test c ≡ true)
      → ((front : Text) (c : ℕ) → value ≡ front ++ c ∷ [] → test c ≡ false)
      → trim_end_matches test (value ++ ends) ≡ value
  unfolding trim_end_matches
  trim_end_unique [] ends good last = trim_all ends good
  trim_end_unique (x ∷ []) ends good last = rw (trim_all ends good, last [] x refl) refl
  trim_end_unique (x ∷ y ∷ value) ends good last =
      longer x (y ∷ value ++ ends) y value (
        trim_end_unique (y ∷ value) ends good (λ front c e. last (x ∷ front) c (ap (λ r. x ∷ r) e)))
