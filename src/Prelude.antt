-- ===== src/Prelude.antt =====
-- The names that the other modules share: the libraries', passed on, and those of the children.
pub mod Tests
pub mod Strings
pub mod Chars
pub mod Results
pub mod Outcomes
pub mod Maps
pub mod Lists
pub mod Ints
pub mod Formats
pub mod Parsing
pub mod Names
pub mod Trimming
pub mod Utf8
pub use Tests.*
pub use Lists.*
pub use Ints.*
unfoldable pub use Strings.{Text, text, text_eq, text_lt, bytes}
pub use Strings.{text_eq_refl, eq_of_text_eq, text_eq_iff, text_eq_comm}
pub use Results.{Result, ok, err}
pub use Outcomes.{Outcome, returns, fails, panics, out_of_fuel}
unfoldable pub use Maps.{BTreeMap, BTreeSet, contains, insert, remove, get, contains_key, put, keys}
pub use Maps.{
  contains-insert, contains-remove, get-put, contains_key-get, get-contains_key, contains-keys,
  mem-contains, contains-mem,
}
pub use Prim.Native.Nat.{ℕ, zero, suc, ◌+◌, ◌-◌, ◌*◌, ◌/◌, ◌%◌, ◌^◌, ◌≤◌, ◌<◌}
pub use mathlib.Core.Path.{◌≡◌, refl, sym, ap, subst, ◌∙◌}
pub use mathlib.Core.Logic.{◌≢◌, ◌↔◌, ◌⊎◌, inl, inr}
pub use mathlib.Core.Bool.{Bool, true, false, not, ◌&&◌, ◌||◌}
pub use mathlib.Core.Option.{Option, none, some}
pub use mathlib.Core.List.{List, [], ◌∷◌, ◌++◌, map, Memᴰ}
pub use native.Mathlib.Omega.{arith}
