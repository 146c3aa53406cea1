-- ===== src/Prelude/Lists.antt =====
-- Lists measured by native numbers, and predicates on all members of a list.
use Prim.Native.Nat.{ℕ, suc, ◌+◌}
use mathlib.Core.Path.{◌≡◌, refl, ap, sym, subst}
use mathlib.Core.Logic.{◌⊎◌, inl, inr}
use mathlib.Core.List.{List, [], ◌∷◌, ◌++◌, map, Memᴰ}
use native.Mathlib.Omega.{arith}

abbrev pub length {ℓ} : {A : Type ℓ} → List A → ℕ
length [] = 0
length (x ∷ s) = suc (length s)

abbrev pub All {ℓ κ} : {A : Type ℓ} → (A → Type κ) → List A → Type κ
All P [] = Unit
All P (x ∷ xs) = P x × All P xs

module _ {ℓ} {A : Type ℓ} where
  pub length-append : (xs ys : List A) → length (xs ++ ys) ≡ length xs + length ys
  length-append [] ys = omega arith
  length-append (x ∷ xs) ys = omega (arith, length-append xs ys)

  pub length-map {κ} : {B : Type κ} (f : A → B) (xs : List A) → length (map f xs) ≡ length xs
  length-map f [] = refl
  length-map f (x ∷ xs) = ap suc (length-map f xs)

  pub All-mem {κ} : (P : A → Type κ) (xs : List A) {x : A} → All P xs → Memᴰ x xs → P x
  All-mem P [] h m = elim m [ ]
  All-mem P (y ∷ xs) h (Memᴰ.head e) = subst P (sym e) h.0
  All-mem P (y ∷ xs) h (Memᴰ.tail m) = All-mem P xs h.1 m

  pub All-map {κ μ} :
      {P : A → Type κ} {Q : A → Type μ} (xs : List A) → ((x : A) → P x → Q x) → All P xs → All Q xs
  All-map [] f h = tt
  All-map (x ∷ xs) f h = (f x h.0, All-map xs f h.1)

  pub mem-snoc : (t : List A) {r s : A} → Memᴰ s (t ++ r ∷ []) → Memᴰ s t ⊎ (s ≡ r)
  mem-snoc [] (Memᴰ.head e) = inr e
  mem-snoc [] (Memᴰ.tail m) = elim m [ ]
  mem-snoc (x ∷ t) (Memᴰ.head e) = inl (Memᴰ.head e)
  mem-snoc (x ∷ t) (Memᴰ.tail m) = elim (mem-snoc t m) [ inl k ↦ inl (Memᴰ.tail k) | inr e ↦ inr e ]

  pub snoc-mem : {s : A} (r : A) {t : List A} → Memᴰ s t → Memᴰ s (t ++ r ∷ [])
  snoc-mem r (Memᴰ.head e) = Memᴰ.head e
  snoc-mem r (Memᴰ.tail m) = Memᴰ.tail (snoc-mem r m)

  pub last-mem : (t : List A) (r : A) → Memᴰ r (t ++ r ∷ [])
  last-mem [] r = Memᴰ.head refl
  last-mem (x ∷ t) r = Memᴰ.tail (last-mem t r)
