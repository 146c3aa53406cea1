-- ===== src/Prelude/Names.antt =====
-- Names of ASCII letters, digits and underscores, as the program's tests on bytes accept them.
use Prim.Native.Nat.{ℕ, ◌≤◌}
use mathlib.Core.Path.{◌≡◌, refl, subst, sym}
use mathlib.Core.Logic.{◌↔◌, ◌⊎◌}
use mathlib.Core.Bool.{Bool, true, false, ◌&&◌, ◌||◌, not}
use mathlib.Core.List.{List, [], ◌∷◌, Memᴰ}
use native.Mathlib.Omega.{arith}
use better_commerce.Prelude.Tests.{◌==◌, and-eq-true}
use better_commerce.Prelude.Strings.{Text, bytes}
use better_commerce.Prelude.Chars.{is_empty, is_ascii_alphanumeric, all}

module _ (test : ℕ → Bool) where
  all-mem : (bs : List ℕ) (b : ℕ) → all test bs ≡ true → Memᴰ b bs → test b ≡ true
  unfolding all
  all-mem [] b h m = elim m [ ]
  all-mem (x ∷ bs) b h (Memᴰ.head e) = subst (λ y. test y ≡ true) (sym e) (and-eq-true _ _ h).0
  all-mem (x ∷ bs) b h (Memᴰ.tail m) = all-mem bs b (and-eq-true _ _ h).1 m

  mem-all : (bs : List ℕ) → ((b : ℕ) → Memᴰ b bs → test b ≡ true) → all test bs ≡ true
  unfolding all
  mem-all [] h = refl
  mem-all (x ∷ bs) h = rw (h x (Memᴰ.head refl), mem-all bs (λ b m. h b (Memᴰ.tail m))) refl

-- An ASCII digit or letter, or the underscore.
abbrev pub IsNameByte : ℕ → Type 0
IsNameByte b =
    ((0x30 ≤ b) × (b ≤ 0x39))
    ⊎ (((0x41 ≤ b) × (b ≤ 0x5a)) ⊎ (((0x61 ≤ b) × (b ≤ 0x7a)) ⊎ (b ≡ 0x5f)))

-- A name is not empty, and the bytes of its encoding are of these.
pub record IsName (s : Text) : Type 0 where
  pub some_byte : ¬ (s ≡ [])
  pub fine : (b : ℕ) → Memᴰ b (bytes s) → IsNameByte b

abbrev pub is_name_byte : ℕ → Bool
is_name_byte b = is_ascii_alphanumeric b || b == 0x5f

IsNameByte-iff : (b : ℕ) → (is_name_byte b ≡ true) ↔ IsNameByte b
IsNameByte-iff b = ground arith

pub is_empty_iff : (s : Text) → (is_empty s ≡ false) ↔ (¬ (s ≡ []))
is_empty_iff [] = (λ h. cc, λ h. absurd (h refl))
is_empty_iff (c ∷ s) = (λ h e. cc, λ h. refl)

not-true : (b : Bool) → not b ≡ true → b ≡ false
not-true b h = ground arith

pub IsName-iff : (s : Text) → ((not (is_empty s) && all is_name_byte (bytes s)) ≡ true) ↔ IsName s
IsName-iff s = (
  λ h.
      let (full, good) = and-eq-true _ _ h in
      record {
        some_byte = (is_empty_iff s).0 (not-true (is_empty s) full);
        fine = λ b m. (IsNameByte-iff b).0 (all-mem is_name_byte (bytes s) b good m);
      },
  λ h.
      let full : is_empty s ≡ false = (is_empty_iff s).1 h.some_byte in
      let good : all is_name_byte (bytes s) ≡ true =
        mem-all is_name_byte (bytes s) (λ b m. (IsNameByte-iff b).1 (h.fine b m)) in
      rw (full, good) refl,
)
