-- ===== src/Prelude/Parsing.antt =====
-- Numbers are read back from their decimal digits.
use Prim.Native.Nat.{ℕ, zero, suc, ◌+◌, ◌-◌, ◌*◌, ◌/◌, ◌%◌, ◌^◌, ◌<◌, ◌≤◌}
use mathlib.Core.Path.{◌≡◌, refl, ◌∙◌}
use mathlib.Core.Logic.{inl, inr}
use mathlib.Core.Bool.{Bool, true, false, ◌&&◌}
use mathlib.Core.Option.{some}
use mathlib.Core.List.{List, [], ◌∷◌, ◌++◌, append_assoc, append-nil}
use native.Mathlib.Omega.{arith}
use native.Mathlib.Nat.{pow-suc}
use better_commerce.Prelude.Tests.{and-eq-true, ltb, ◌==◌, Bool-cases, ltb→lt, lt→ltb}
use better_commerce.Prelude.Strings.{Text}
use better_commerce.Prelude.Chars.{all, is_ascii_digit}
use better_commerce.Prelude.Formats.{digits, decimal, digits_value, parse_unsigned}

pub all-append : (test : ℕ → Bool) (s t : Text) → all test (s ++ t) ≡ (all test s && all test t)
unfolding all
all-append test [] t = refl
all-append test (c ∷ s) t = ground (arith, all-append test s t)

pub all-implies :
    (f g : ℕ → Bool) (s : List ℕ)
    → ((c : ℕ) → f c ≡ true → g c ≡ true)
    → all f s ≡ true
    → all g s ≡ true
unfolding all
all-implies f g [] h k = refl
all-implies f g (c ∷ s) h k =
    let (a, b) = and-eq-true (f c) _ k in rw (h c a, all-implies f g s h b) refl

is_ascii_digit-digit : (k : ℕ) → k < 10 → is_ascii_digit (0x30 + k) ≡ true
is_ascii_digit-digit k h = ground arith

digit-value :
    (k n m : ℕ) (s : Text)
    → k < 10
    → n * 10 + k ≡ m
    → digits_value ((0x30 + k) ∷ s) n ≡ digits_value s m
unfolding digits_value
digit-value k n m s h e =
    let same : n * 10 + (0x30 + k - 0x30) ≡ m = omega arith in
    rw (is_ascii_digit-digit k h, same) refl

digits-small : (p n : ℕ) → ltb n 10 ≡ true → digits (suc p) n ≡ (0x30 + n) ∷ []
unfolding digits
digits-small p n h = rw h refl

digits-big :
    (p n : ℕ) → ltb n 10 ≡ false → digits (suc p) n ≡ digits p (n / 10) ++ (0x30 + n % 10) ∷ []
unfolding digits
digits-big p n h = rw h refl

-- Digits are read to their number, and reading goes on behind them.
digits_value-digits :
    (places n : ℕ) (s : Text)
    → n < 10 ^ suc places
    → digits_value (digits (suc places) n ++ s) 0 ≡ digits_value s n
digits_value-digits zero n s h =
    let small : ltb n 10 ≡ true = lt→ltb n 10 (omega arith) in
    rw (digits-small zero n small) (digit-value n 0 n s (omega arith) (omega arith))
digits_value-digits (suc p) n s h = elim (Bool-cases (ltb n 10)) [
  | inl small ↦
      rw (digits-small (suc p) n small) (digit-value n 0 n s (ltb→lt n 10 small) (omega arith))
  | inr big ↦
      rw (digits-big (suc p) n big, append_assoc (digits (suc p) (n / 10)) ((0x30 + n % 10) ∷ []) s)
        (digits_value-digits p (n / 10) ((0x30 + n % 10) ∷ s)
            (tenth (10 ^ suc p) n (rw (pow-suc 10 (suc p)) at h))
          ∙ digit-value (n % 10) (n / 10) n s (omega arith) (omega arith))
]
  where
    tenth : (b n : ℕ) → n < b * 10 → n / 10 < b
    tenth b n h = omega arith

pub all-digits : (places n : ℕ) → all is_ascii_digit (digits places n) ≡ true
unfolding all
all-digits zero n = unfold digits in refl
all-digits (suc p) n = elim (Bool-cases (ltb n 10)) [
  | inl small ↦ rw (digits-small p n small, is_ascii_digit-digit n (ltb→lt n 10 small)) refl
  | inr big ↦
      rw
        (
          digits-big p n big,
          all-append is_ascii_digit (digits p (n / 10)) ((0x30 + n % 10) ∷ []),
          all-digits p (n / 10),
          is_ascii_digit-digit (n % 10) (omega arith),
        )
        refl
]

-- There is a first digit, which is no plus sign.
pub digits-cons :
    (p n : ℕ) → (c : ℕ) × ((s : Text) × ((digits (suc p) n ≡ c ∷ s) × ((c == 0x2b) ≡ false)))
digits-cons zero n = elim (Bool-cases (ltb n 10)) [
  | inl small ↦ (0x30 + n, ([], (digits-small zero n small, ground arith)))
  | inr big ↦ (
    0x30 + n % 10,
    ([], (unfold digits in digits-big zero n big, ground (arith, no_plus (n % 10)))),
  )
]
  where
    no_plus : (k : ℕ) → ((0x30 + k) == 0x2b) ≡ false
    no_plus k = ground arith
digits-cons (suc p) n = elim (Bool-cases (ltb n 10)) [
  | inl small ↦ (0x30 + n, ([], (digits-small (suc p) n small, ground arith)))
  | inr big ↦
      let (c, (s, (e, k))) = digits-cons p (n / 10) in
      (c, (s ++ (0x30 + n % 10) ∷ [], (digits-big (suc p) n big ∙ rw e refl, k)))
]

-- `str::parse` reads back what `{}` writes.
pub parse_unsigned-decimal :
    (bound n : ℕ) → n < bound → bound ≤ 10 ^ 20 → parse_unsigned bound (decimal n) ≡ some n
unfolding parse_unsigned decimal
parse_unsigned-decimal bound n h le =
    let (c, (s, (e, k))) = digits-cons 19 n in
    let read : digits_value (c ∷ s) 0 ≡ some n =
      unfold digits_value in
      rw (append-nil (digits 20 n), e) at (digits_value-digits 19 n [] (omega arith)) in
    rw (e, k, read, lt→ltb n bound h) refl
