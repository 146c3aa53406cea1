-- ===== src/Prelude/Maps.antt =====
-- Rust's `BTreeMap<String, V>` and `BTreeSet<String>`: their entries in the order of the keys, in
-- which both are iterated.
use mathlib.Core.Path.{◌≡◌, refl, sym}
use mathlib.Core.Logic.{inl, inr}
use mathlib.Core.Bool.{Bool, true, false, ◌||◌}
use mathlib.Core.Option.{Option, none, some}
use mathlib.Core.List.{List, [], ◌∷◌, map, Memᴰ}
use native.Mathlib.Omega.{arith}
use better_commerce.Prelude.Tests.{Bool-cases, if◌then◌else◌}
use better_commerce.Prelude.Strings.{
  Text, text_eq, text_lt, text_eq_iff, eq_of_text_eq, text_eq_refl,
}

abbrev pub BTreeMap : Type 0 → Type 0
BTreeMap V = List (Text × V)

abbrev pub BTreeSet : Type 0
BTreeSet = List Text

unfoldable pub contains : Text → BTreeSet → Bool
contains k [] = false
contains k (x ∷ s) = text_eq x k || contains k s

-- A set keeps one copy of each element.
unfoldable pub insert : Text → BTreeSet → BTreeSet
insert k [] = k ∷ []
insert k (x ∷ s) =
    let rest = x ∷ insert k s in
    if text_eq x k then x ∷ s else (if text_lt k x then k ∷ x ∷ s else rest)

unfoldable pub remove : Text → BTreeSet → BTreeSet
remove k [] = []
remove k (x ∷ s) = let rest = remove k s in if text_eq x k then rest else x ∷ rest

pub contains-insert :
    (k j : Text) (s : BTreeSet) → contains j (insert k s) ≡ (text_eq k j || contains j s)
unfolding contains insert
contains-insert k j [] = refl
contains-insert k j (x ∷ s) =
    ground (arith, text_eq_iff k j, text_eq_iff x k, text_eq_iff x j, contains-insert k j s)

pub contains-remove :
    (k j : Text) (s : BTreeSet)
    → contains j (remove k s) ≡ (if text_eq k j then false else contains j s)
unfolding contains remove
contains-remove k j [] = ground arith
contains-remove k j (x ∷ s) =
    ground (arith, text_eq_iff k j, text_eq_iff x k, text_eq_iff x j, contains-remove k j s)

module _ {V : Type 0} where
  unfoldable pub get : Text → BTreeMap V → Option V
  get k [] = none
  get k ((j, v) ∷ m) = if text_eq j k then some v else get k m

  unfoldable pub contains_key : Text → BTreeMap V → Bool
  contains_key k [] = false
  contains_key k ((j, v) ∷ m) = text_eq j k || contains_key k m

  -- `BTreeMap::insert` replaces the value of a key that is there.
  unfoldable pub put : Text → V → BTreeMap V → BTreeMap V
  put k v [] = (k, v) ∷ []
  put k v ((j, w) ∷ m) =
      let rest = (j, w) ∷ put k v m in
      if text_eq j k then (k, v) ∷ m else (if text_lt k j then (k, v) ∷ (j, w) ∷ m else rest)

  abbrev pub keys : BTreeMap V → List Text
  keys = map λ e. e.0

  pub get-put :
      (k j : Text) (v : V) (m : BTreeMap V)
      → get j (put k v m) ≡ (if text_eq k j then some v else get j m)
  unfolding get put
  get-put k j v [] = refl
  get-put k j v ((i, w) ∷ m) =
      ground (arith, text_eq_iff k j, text_eq_iff i k, text_eq_iff i j, get-put k j v m)

  pub contains_key-get :
      (k : Text) (m : BTreeMap V) → contains_key k m ≡ true → (v : V) × (get k m ≡ some v)
  unfolding contains_key get
  contains_key-get k [] h = cc
  contains_key-get k ((j, v) ∷ m) h = elim (Bool-cases (text_eq j k)) [
    | inl e ↦ (v, rw e)
    | inr e ↦ let (w, p) = contains_key-get k m (rw e at h) in (w, rw e p)
  ]

  pub get-contains_key :
      (k : Text) (m : BTreeMap V) {v : V} → get k m ≡ some v → contains_key k m ≡ true
  unfolding contains_key get
  get-contains_key k [] h = cc
  get-contains_key k ((j, w) ∷ m) {v} h = elim (Bool-cases (text_eq j k)) [
    | inl e ↦ rw e
    | inr e ↦ rw e (get-contains_key k m {v = v} (rw e at h))
  ]

  pub contains-keys : (k : Text) (m : BTreeMap V) → contains k (keys m) ≡ contains_key k m
  unfolding contains contains_key
  contains-keys k [] = refl
  contains-keys k ((j, v) ∷ m) = ground (arith, contains-keys k m)

pub mem-contains : (k : Text) (s : BTreeSet) → contains k s ≡ true → Memᴰ k s
unfolding contains
mem-contains k [] h = cc
mem-contains k (x ∷ s) h = elim (Bool-cases (text_eq x k)) [
  | inl e ↦ Memᴰ.head (sym (eq_of_text_eq x k e))
  | inr e ↦ Memᴰ.tail (mem-contains k s (rw e at h))
]

pub contains-mem : {k : Text} {s : BTreeSet} → Memᴰ k s → contains k s ≡ true
unfolding contains
contains-mem {k} (Memᴰ.head e) = rw (← e, text_eq_refl k)
contains-mem (Memᴰ.tail m) = ground (arith, contains-mem m)
