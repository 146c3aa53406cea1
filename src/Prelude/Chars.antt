-- ===== src/Prelude/Chars.antt =====
-- Tests on ASCII characters and bytes, and the parts of Rust's `str` that several files use.
use Prim.Native.Nat.{ℕ, zero, suc}
use mathlib.Core.Bool.{Bool, true, false, ◌&&◌, ◌||◌}
use mathlib.Core.List.{List, [], ◌∷◌}
use better_commerce.Prelude.Tests.{leb, ◌==◌, if◌then◌else◌}
use better_commerce.Prelude.Strings.{Text}

abbrev pub is_empty : Text → Bool
is_empty [] = true
is_empty (c ∷ s) = false

abbrev pub is_ascii_lowercase : ℕ → Bool
is_ascii_lowercase b = leb 0x61 b && leb b 0x7a

abbrev pub is_ascii_uppercase : ℕ → Bool
is_ascii_uppercase b = leb 0x41 b && leb b 0x5a

abbrev pub is_ascii_digit : ℕ → Bool
is_ascii_digit b = leb 0x30 b && leb b 0x39

abbrev pub is_ascii_alphanumeric : ℕ → Bool
is_ascii_alphanumeric b = is_ascii_lowercase b || (is_ascii_uppercase b || is_ascii_digit b)

-- `Iterator::all`.
unfoldable pub all : (ℕ → Bool) → List ℕ → Bool
all test [] = true
all test (b ∷ bs) = test b && all test bs

-- `str::trim_matches` on one character.
unfoldable pub trim_start_matches : ℕ → Text → Text
trim_start_matches x [] = []
trim_start_matches x (c ∷ s) = let rest = trim_start_matches x s in if c == x then rest else c ∷ s

unfoldable pub trim_end_matches : (ℕ → Bool) → Text → Text
trim_end_matches test [] = []
trim_end_matches test (c ∷ s) =
    let rest = trim_end_matches test s in if test c && is_empty rest then [] else c ∷ rest

unfoldable pub take : ℕ → List ℕ → List ℕ
take zero s = []
take (suc n) [] = []
take (suc n) (c ∷ s) = c ∷ take n s
