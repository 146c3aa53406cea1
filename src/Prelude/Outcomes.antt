-- ===== src/Prelude/Outcomes.antt =====
-- The outcome of Rust code that returns a `Result` and may also panic, or, in the model of an
-- unbounded recursion, run out of fuel.
use mathlib.Core.Path.{◌≡◌, refl}
use mathlib.Core.Bool.{Bool, true, false}
use mathlib.Core.Option.{Option, none, some}
use better_commerce.Prelude.Results.{Result, ok, err}

pub data Outcome (E A : Type 0) : Type 0 where
  returns : A → Outcome E A
  fails : E → Outcome E A
  panics : Outcome E A
  out_of_fuel : Outcome E A

module _ {E A : Type 0} where
  abbrev pub of_result : Result E A → Outcome E A
  of_result (ok a) = returns a
  of_result (err e) = fails e

  -- `Option::ok_or_else` under `?`.
  abbrev pub or_fail : Option A → E → Outcome E A
  or_fail none e = fails e
  or_fail (some a) e = returns a

  -- `map[key]`, which panics on a missing key.
  abbrev pub index : Option A → Outcome E A
  index none = panics
  index (some a) = returns a

-- `map_err` on code that may panic.
abbrev pub fails_with : {E F A : Type 0} → (E → F) → Outcome E A → Outcome F A
fails_with f (returns a) = returns a
fails_with f (fails e) = fails (f e)
fails_with f panics = panics
fails_with f out_of_fuel = out_of_fuel

-- `Option::unwrap_or`.
abbrev pub or_else : {A : Type 0} → Option A → A → A
or_else none a = a
or_else (some b) a = b

module _ {E : Type 0} where
  -- `if !test { return Err(e) }`.
  abbrev pub ensure : Bool → E → Outcome E (Unit {0})
  ensure true e = returns tt
  ensure false e = fails e

module _ {E S T : Type 0} where
  infixl 5 ◌>>=◌
  abbrev pub ◌>>=◌ : Outcome E S → (S → Outcome E T) → Outcome E T
  panics >>= rest = panics
  out_of_fuel >>= rest = out_of_fuel
  fails reason >>= rest = fails reason
  returns value >>= rest = rest value

  pub >>=-eq-returns :
      (first : Outcome E S) (rest : S → Outcome E T) {t : T}
      → (first >>= rest) ≡ returns t
      → (s : S) × (first ≡ returns s) × (rest s ≡ returns t)
  >>=-eq-returns panics rest e = cc
  >>=-eq-returns out_of_fuel rest e = cc
  >>=-eq-returns (fails reason) rest e = cc
  >>=-eq-returns (returns value) rest e = (value, refl, e)

module _ {E T : Type 0} where
  infixl 5 ◌>>◌
  abbrev pub ◌>>◌ : Outcome E (Unit {0}) → Outcome E T → Outcome E T
  first >> rest = first >>= λ _. rest
