-- ===== src/Prelude/Results.antt =====
-- Rust's `Result`, with the `?` operator as its bind.
use mathlib.Core.Path.{◌≡◌, refl}
use mathlib.Core.Logic.{◌⊎◌, inl, inr}
use mathlib.Core.Bool.{Bool, true, false, not}
use mathlib.Core.Option.{Option, none, some}

pub data Result (E A : Type 0) : Type 0 where
  err : E → Result E A
  ok : A → Result E A

module _ {E A : Type 0} where
  -- `Option::ok_or_else`.
  abbrev pub ok_or : Option A → E → Result E A
  ok_or none e = err e
  ok_or (some a) e = ok a

  abbrev pub map_err : {F : Type 0} → (E → F) → Result E A → Result F A
  map_err f (ok a) = ok a
  map_err f (err e) = err (f e)

module _ {E : Type 0} where
  -- `if !test { return Err(e) }`.
  abbrev pub ensure : Bool → E → Result E (Unit {0})
  ensure false e = err e
  ensure true e = ok tt

module _ {E S T : Type 0} where
  infixl 5 ◌>>=◌
  abbrev pub ◌>>=◌ : Result E S → (S → Result E T) → Result E T
  err reason >>= rest = err reason
  ok value >>= rest = rest value

module _ {E T : Type 0} where
  infixl 5 ◌>>◌
  abbrev pub ◌>>◌ : Result E (Unit {0}) → Result E T → Result E T
  first >> rest = first >>= λ _. rest

-- The two ends of a result.
module _ {E A : Type 0} where
  pub Result-cases : (r : Result E A) → ((a : A) × (r ≡ ok a)) ⊎ ((e : E) × (r ≡ err e))
  Result-cases (ok a) = inl (a, refl)
  Result-cases (err e) = inr (e, refl)

-- What a chain that ends well has passed.
module _ {E A B : Type 0} where
  pub bind-ok :
      (r : Result E A) (f : A → Result E B) {b : B}
      → (r >>= f) ≡ ok b
      → (a : A) × ((r ≡ ok a) × (f a ≡ ok b))
  bind-ok (ok a) f h = (a, (refl, h))
  bind-ok (err e) f h = cc

module _ {E A : Type 0} where
  pub ok_or-ok : (o : Option A) (e : E) {a : A} → ok_or o e ≡ ok a → o ≡ some a
  ok_or-ok none e h = cc
  ok_or-ok (some a) e h = cc

  pub map_err-ok : {F : Type 0} (f : E → F) (r : Result E A) {a : A} → map_err f r ≡ ok a → r ≡ ok a
  map_err-ok f (ok a) h = cc
  map_err-ok f (err e) h = cc

  pub ensure-ok :
      (b : Bool) (e : E) (rest : Result E A) {a : A}
      → (ensure b e >> rest) ≡ ok a
      → (b ≡ true) × (rest ≡ ok a)
  ensure-ok true e rest h = (refl, h)
  ensure-ok false e rest h = cc

  pub ensure-not-ok :
      (b : Bool) (e : E) (rest : Result E A) {a : A}
      → (ensure (not b) e >> rest) ≡ ok a
      → (b ≡ false) × (rest ≡ ok a)
  ensure-not-ok true e rest h = cc
  ensure-not-ok false e rest h = (refl, h)

  -- The value of a result.
  pub ok_value : {a b : A} → ◌≡◌ {A = Result E A} (ok a) (ok b) → a ≡ b
  ok_value h = cc
