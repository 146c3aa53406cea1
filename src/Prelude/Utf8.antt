-- ===== src/Prelude/Utf8.antt =====
-- `std::str::from_utf8`: the decoder of UTF-8, one byte at a time.
use Prim.Native.Nat.{ℕ, zero, suc, ◌+◌, ◌-◌, ◌*◌}
use mathlib.Core.Path.{◌≡◌, refl}
use mathlib.Core.Bool.{true, ◌&&◌}
use mathlib.Core.Option.{Option, none, some}
use mathlib.Core.List.{List, [], ◌∷◌}
use better_commerce.Prelude.Tests.{ltb, leb, ◌==◌, and-eq-true, if◌then◌else◌}
use better_commerce.Prelude.Strings.{Text}
use better_commerce.Prelude.Chars.{all}

-- Between two scalar values, or inside one: how many bytes are missing after the next one, the bits
-- so far, and the bounds of the next byte.
pub data Decoder : Type 0 where
  between : Decoder
  inside : (missing bits low high : ℕ) → Decoder
  broken : Decoder

abbrev begin : ℕ → Decoder
begin b =
    if ltb b 0x80
    then between
    else (if leb 0xc2 b && leb b 0xdf
        then inside 0 (b - 0xc0) 0x80 0xbf
        else (if b == 0xe0
            then inside 1 0 0xa0 0xbf
            else (if b == 0xed
                then inside 1 0xd 0x80 0x9f
                else (if leb 0xe1 b && leb b 0xef
                    then inside 1 (b - 0xe0) 0x80 0xbf
                    else (if b == 0xf0
                        then inside 2 0 0x90 0xbf
                        else (if b == 0xf4
                            then inside 2 4 0x80 0x8f
                            else (if leb 0xf1 b && leb b 0xf3
                                then inside 2 (b - 0xf0) 0x80 0xbf
                                else broken)))))))

abbrev shifted : ℕ → ℕ → ℕ
shifted bits b = bits * 64 + (b - 0x80)

-- The state after a byte.
abbrev pub after_byte : Decoder → ℕ → Decoder
after_byte between b = begin b
after_byte (inside zero bits low high) b = if leb low b && leb b high then between else broken
after_byte (inside (suc k) bits low high) b =
    if leb low b && leb b high then inside k (shifted bits b) 0x80 0xbf else broken
after_byte broken b = broken

-- The scalar value that a byte completes, before the rest.
abbrev pub completed : Decoder → ℕ → Option Text → Option Text
completed d b none = none
completed between b (some s) = some (if ltb b 0x80 then b ∷ s else s)
completed (inside zero bits low high) b (some s) = some (shifted bits b ∷ s)
completed (inside (suc k) bits low high) b (some s) = some s
completed broken b (some s) = some s

unfoldable pub decode_from : Decoder → List ℕ → Option Text
decode_from between [] = some []
decode_from (inside k bits low high) [] = none
decode_from broken [] = none
decode_from d (b ∷ bs) = completed d b (decode_from (after_byte d b) bs)

unfoldable pub from_utf8 : List ℕ → Option Text
from_utf8 bs = decode_from between bs

-- ASCII stands for itself.
pub from_utf8-ascii : (s : List ℕ) → all (λ b. ltb b 0x80) s ≡ true → from_utf8 s ≡ some s
unfolding from_utf8 decode_from all
from_utf8-ascii [] h = refl
from_utf8-ascii (b ∷ s) h =
    let (a, k) = and-eq-true (ltb b 0x80) _ h in rw (a, from_utf8-ascii s k, a) refl
