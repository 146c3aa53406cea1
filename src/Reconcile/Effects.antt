-- ===== src/Reconcile/Effects.antt =====
-- What `reconcile` of core/src/reconcile.rs does to its machine, in order: the commands that it
-- runs and the requests that it sends; and code that may stop early and leaves such a trace.
use better_commerce.Prelude.{Text, List, [], ◌++◌, Outcome, returns, fails, panics, out_of_fuel}
use better_commerce.Reconcile.Types.{ReconcileError, ComposeContext}

pub data Effect : Type 0 where
  ran : (context : ComposeContext) (arguments : List Text) → Effect
  probed : (url : Text) → Effect

abbrev pub Traced : Type 0 → Type 0
Traced A = Outcome ReconcileError A × List Effect

module _ {A B : Type 0} where
  infixl 5 ◌>>=◌
  abbrev pub ◌>>=◌ : Traced A → (A → Traced B) → Traced B
  (returns a, effects) >>= rest = let (result, later) = rest a in (result, effects ++ later)
  (fails e, effects) >>= rest = (fails e, effects)
  (panics, effects) >>= rest = (panics, effects)
  (out_of_fuel, effects) >>= rest = (out_of_fuel, effects)

module _ {B : Type 0} where
  infixl 5 ◌>>◌
  abbrev pub ◌>>◌ : Traced (Unit {0}) → Traced B → Traced B
  first >> rest = first >>= λ _. rest

-- Code without effects.
abbrev pub quietly : {A : Type 0} → Outcome ReconcileError A → Traced A
quietly result = (result, [])
