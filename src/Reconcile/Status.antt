-- ===== src/Reconcile/Status.antt =====
-- `get_status` of core/src/reconcile.rs, on the bytes that the connection answers.
use better_commerce.Prelude.{
  ℕ, ◌≡◌, refl, ◌<◌, Bool, true, false, not, ◌&&◌, Option, none, some, Text, text, List, [], ◌∷◌,
  ◌++◌, ◌==◌, if◌then◌else◌, arith, ltb, and-eq-true,
}
use mathlib.Core.Option.{bind}
use better_commerce.Prelude.Chars.{all, is_ascii_digit}
use better_commerce.Prelude.Utf8.{from_utf8, from_utf8-ascii}
use better_commerce.Prelude.Formats.{decimal, digits, parse_unsigned}
use better_commerce.Prelude.Parsing.{
  all-implies, parse_unsigned-decimal, all-digits, digits-cons, all-append,
}
use better_commerce.Example.Configuration.{is_whitespace}

-- `split(|byte| *byte == b'\n').next()`.
unfoldable pub first_line : List ℕ → List ℕ
first_line [] = []
first_line (b ∷ bs) = let rest = first_line bs in if b == 0xa then [] else b ∷ rest

abbrev pub with_word : Text → List Text → List Text
with_word [] words = words
with_word (c ∷ word) words = (c ∷ word) ∷ words

-- The word that a text begins with, empty if it begins with white space, and the words after it.
unfoldable pub words_from : Text → Text × List Text
words_from [] = ([], [])
words_from (c ∷ s) =
    let (word, words) = words_from s in
    if is_whitespace c then ([], with_word word words) else (c ∷ word, words)

unfoldable pub split_whitespace : Text → List Text
split_whitespace s = let (word, words) = words_from s in with_word word words

-- `nth(1)`.
abbrev pub second_of : List Text → Option Text
second_of (a ∷ b ∷ words) = some b
second_of _ = none

abbrev pub status_of_line : Text → Option ℕ
status_of_line line = bind (second_of (split_whitespace line)) (parse_unsigned 65536)

unfoldable pub status_of : List ℕ → Option ℕ
status_of response = bind (from_utf8 (first_line response)) status_of_line

-- A connection that fails has no status either.
unfoldable pub get_status : Option (List ℕ) → Option ℕ
get_status none = none
get_status (some response) = status_of response

-- A byte of a line in ASCII.
abbrev pub is_line_byte : ℕ → Bool
is_line_byte b = ltb b 0x80 && not (b == 0xa)

abbrev is_word_byte : ℕ → Bool
is_word_byte c = not (is_whitespace c)

first_line-append : (l r : List ℕ) → all is_line_byte l ≡ true → first_line (l ++ 0xa ∷ r) ≡ l
unfolding first_line all
first_line-append [] r h = refl
first_line-append (b ∷ l) r h = ground (arith, first_line-append l r)

space : is_whitespace 0x20 ≡ true
unfolding is_whitespace
space = refl

no_space : (c : ℕ) → is_word_byte c ≡ true → is_whitespace c ≡ false
no_space c h = ground arith

-- A word, and white space behind it.
words_from-word :
    (w s : Text) → all is_word_byte w ≡ true → words_from (w ++ 0x20 ∷ s) ≡ (w, split_whitespace s)
unfolding words_from all split_whitespace
words_from-word [] s h = rw space refl
words_from-word (c ∷ w) s h =
    let (a, k) = and-eq-true (is_word_byte c) _ h in rw (no_space c a, words_from-word w s k) refl

digit-word : (c : ℕ) → is_ascii_digit c ≡ true → is_word_byte c ≡ true
unfolding is_whitespace
digit-word c h = ground arith

digit-line : (c : ℕ) → is_ascii_digit c ≡ true → is_line_byte c ≡ true
digit-line c h = ground arith

line-ascii : (c : ℕ) → is_line_byte c ≡ true → ltb c 0x80 ≡ true
line-ascii c h = ground arith

-- A status line without its line end.
abbrev pub status_line : ℕ → List ℕ → List ℕ
status_line code reason = text "HTTP/1.1" ++ (0x20 ∷ (decimal code ++ (0x20 ∷ reason)))

all-status_line :
    (code : ℕ) (reason : List ℕ)
    → all is_line_byte reason ≡ true
    → all is_line_byte (status_line code reason) ≡ true
unfolding all decimal
all-status_line code reason h =
    rw
      (
        all-append is_line_byte (digits 20 code) (0x20 ∷ reason),
        all-implies is_ascii_digit is_line_byte (digits 20 code) digit-line (all-digits 20 code),
        h,
      )
      refl

version_word : all is_word_byte (text "HTTP/1.1") ≡ true
unfolding all is_whitespace
version_word = refl

code-split :
    (code : ℕ) (reason : List ℕ)
    → second_of (split_whitespace (status_line code reason)) ≡ some (decimal code)
unfolding split_whitespace decimal all
code-split code reason =
    let (c, (s, (e, k))) = digits-cons 19 code in
    let word : all is_word_byte (digits 20 code) ≡ true =
      all-implies is_ascii_digit is_word_byte (digits 20 code) digit-word (all-digits 20 code) in
    rw
      (
        words_from-word (text "HTTP/1.1") (digits 20 code ++ (0x20 ∷ reason)) version_word,
        words_from-word (digits 20 code) reason word,
        e,
      )
      refl

-- For an answer that begins with a status line in ASCII, `get_status` gives its code.
pub get_status-status_line :
    (code : ℕ) (reason rest : List ℕ)
    → code < 65536
    → all is_line_byte reason ≡ true
    → get_status (some (status_line code reason ++ 0xa ∷ rest)) ≡ some code
unfolding get_status status_of bind
get_status-status_line code reason rest h ascii =
    let line : all is_line_byte (status_line code reason) ≡ true =
      all-status_line code reason ascii in
    rw
      (
        first_line-append (status_line code reason) rest line,
        from_utf8-ascii (status_line code reason)
            (all-implies is_line_byte (λ b. ltb b 0x80) (status_line code reason) line-ascii line),
        code-split code reason,
      )
      (parse_unsigned-decimal 65536 code h (omega arith))
