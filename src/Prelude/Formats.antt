-- ===== src/Prelude/Formats.antt =====
-- Numbers as texts: `{}` on integers, `str::parse`, and `{:02x}` on a byte.
use Prim.Native.Nat.{ℕ, zero, suc, ◌+◌, ◌-◌, ◌*◌, ◌/◌, ◌%◌}
use mathlib.Core.List.{List, [], ◌∷◌, ◌++◌}
use better_commerce.Prelude.Tests.{ltb, ◌==◌, if◌then◌else◌}
use better_commerce.Prelude.Ints.{ℤ, pos, negsuc}
use mathlib.Core.Option.{Option, none, some}
use better_commerce.Prelude.Chars.{is_ascii_digit}
use better_commerce.Prelude.Strings.{Text, text}

-- The digits of a number of at most so many digits.
unfoldable pub digits : ℕ → ℕ → Text
digits zero n = []
digits (suc places) n =
    let rest = digits places (n / 10) in
    if ltb n 10 then (0x30 + n) ∷ [] else rest ++ (0x30 + n % 10) ∷ []

-- A number below 2 ^ 64 has at most 20 digits.
unfoldable pub decimal : ℕ → Text
decimal n = digits 20 n

unfoldable pub decimal_int : ℤ → Text
decimal_int (pos n) = decimal n
decimal_int (negsuc n) = text "-" ++ decimal (suc n)

-- `str::parse` for an unsigned integer below a bound: an optional plus sign, and digits.
unfoldable pub digits_value : Text → ℕ → Option ℕ
digits_value [] n = some n
digits_value (c ∷ s) n =
    let rest = digits_value s (n * 10 + (c - 0x30)) in if is_ascii_digit c then rest else none

abbrev pub below : ℕ → Option ℕ → Option ℕ
below bound none = none
below bound (some n) = if ltb n bound then some n else none

abbrev pub unsigned_value : ℕ → Text → Option ℕ
unsigned_value bound [] = none
unsigned_value bound (c ∷ s) = below bound (digits_value (c ∷ s) 0)

unfoldable pub parse_unsigned : ℕ → Text → Option ℕ
parse_unsigned bound [] = none
parse_unsigned bound (c ∷ s) =
    if c == 0x2b then unsigned_value bound s else unsigned_value bound (c ∷ s)

abbrev pub hex_digit : ℕ → ℕ
hex_digit n = if ltb n 10 then 0x30 + n else 0x57 + n

unfoldable pub hex_byte : ℕ → Text
hex_byte b = hex_digit (b / 16) ∷ hex_digit (b % 16) ∷ []

unfoldable pub hex_bytes : List ℕ → Text
hex_bytes [] = []
hex_bytes (b ∷ bs) = hex_byte b ++ hex_bytes bs
