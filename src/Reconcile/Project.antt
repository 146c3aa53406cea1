-- ===== src/Reconcile/Project.antt =====
-- The name of the Compose project in core/src/reconcile.rs.
use better_commerce.Prelude.{
  ℕ, ◌/◌, ◌%◌, ◌≤◌, ◌<◌, ◌≡◌, refl, Bool, true, not, Text, text, List, [], ◌∷◌, ◌++◌, bytes, length,
  length-append, ltb, leb, leb→le, ◌==◌, arith, and-eq-true,
}
use better_commerce.Prelude.Strings.{encode_utf8}
use better_commerce.Prelude.Chars.{all, take, trim_start_matches, trim_end_matches, is_empty}
use better_commerce.Prelude.Formats.{hex_digit, hex_byte, hex_bytes}
use better_commerce.Prelude.Parsing.{all-append}
use better_commerce.Database.Identifiers.{HasBytes, all-take, length-take, length-hex_bytes}
use better_commerce.Reconcile.Deployment.{
  is_installation_byte, valid_installation, compose_project_name,
}

-- A text of installation bytes is its own encoding.
ascii_byte : (c : ℕ) → all is_installation_byte (encode_utf8 c) ≡ true → encode_utf8 c ≡ c ∷ []
unfolding encode_utf8 all
ascii_byte c h = ground arith

bytes-installation : (s : Text) → all is_installation_byte (bytes s) ≡ true → bytes s ≡ s
unfolding bytes
bytes-installation [] h = refl
bytes-installation (c ∷ s) h =
    let (a, b) =
      and-eq-true _ _ (rw (all-append is_installation_byte (encode_utf8 c) (bytes s)) at h) in
    rw (ascii_byte c a, bytes-installation s b) refl

module _ (test : ℕ → Bool) where
  all-trim_start : (x : ℕ) (s : Text) → all test s ≡ true → all test (trim_start_matches x s) ≡ true
  unfolding all trim_start_matches
  all-trim_start x [] h = refl
  all-trim_start x (c ∷ s) h = ground (arith, all-trim_start x s)

  all-trim_end :
      (drop : ℕ → Bool) (s : Text) → all test s ≡ true → all test (trim_end_matches drop s) ≡ true
  unfolding all trim_end_matches
  all-trim_end drop [] h = refl
  all-trim_end drop (c ∷ s) h = ground (arith, all-trim_end drop s)

length-trim_start : (x : ℕ) (s : Text) → length (trim_start_matches x s) ≤ length s
unfolding trim_start_matches
length-trim_start x [] = omega arith
length-trim_start x (c ∷ s) = ground (arith, length-trim_start x s)

length-trim_end : (drop : ℕ → Bool) (s : Text) → length (trim_end_matches drop s) ≤ length s
unfolding trim_end_matches
length-trim_end drop [] = omega arith
length-trim_end drop (c ∷ s) = ground (arith, length-trim_end drop s)

hex_digit-installation : (n : ℕ) → n < 16 → is_installation_byte (hex_digit n) ≡ true
hex_digit-installation n h = ground arith

all-hex :
    (bs : List ℕ) → all (λ b. ltb b 256) bs ≡ true → all is_installation_byte (hex_bytes bs) ≡ true
unfolding all hex_bytes hex_byte
all-hex [] h = refl
all-hex (b ∷ bs) h =
    ground (arith, all-hex bs, hex_digit-installation (b / 16), hex_digit-installation (b % 16))

-- A name that Docker Compose takes for a project: lower-case letters, digits and hyphens, with a
-- letter first, and short.
pub record IsProjectName (name : Text) : Type 0 where
  pub plain : all is_installation_byte name ≡ true
  pub tail : Text
  pub lettered : name ≡ text "bc-" ++ tail
  pub short : length name ≤ 60

-- For an accepted installation, if the digest consists of bytes, the name of the Compose project
-- has at most 60 characters, lower-case letters, digits and hyphens only, and begins with `bc-`.
pub compose_project_name-IsProjectName :
    (sha256 : List ℕ → List ℕ) (id : Text)
    → HasBytes sha256
    → valid_installation id ≡ true
    → IsProjectName (compose_project_name sha256 id)
unfolding compose_project_name valid_installation all
compose_project_name-IsProjectName sha256 id h valid =
    let (_, rest) = and-eq-true (not (is_empty id)) _ valid in
    let (few, fine) = and-eq-true (leb (length (bytes id)) 40) _ rest in
    let same : bytes id ≡ id = bytes-installation id fine in
    let middle : Text = trim_end_matches (λ c. c == 0x2d) (trim_start_matches 0x2d id) in
    let digest : Text = hex_bytes (take 8 (sha256 (bytes id))) in
    let kept : all is_installation_byte middle ≡ true =
      all-trim_end is_installation_byte (λ c. c == 0x2d) (trim_start_matches 0x2d id)
        (all-trim_start is_installation_byte 0x2d id (rw same at fine)) in
    let hex : all is_installation_byte digest ≡ true = all-hex _ (all-take 8 _ _ (h (bytes id))) in
    let id_short : length id ≤ 40 = leb→le (length id) 40 (rw same at few) in
    record {
      plain = rw (all-append is_installation_byte middle (0x2d ∷ digest), kept, hex) refl;
      tail = middle ++ (text "-" ++ digest);
      lettered = refl;
      short = rw (length-append middle (0x2d ∷ digest)) (
          omega (
            arith,
            id_short,
            length-trim_end (λ c. c == 0x2d) (trim_start_matches 0x2d id),
            length-trim_start 0x2d id,
            length-hex_bytes (take 8 (sha256 (bytes id))),
            length-take 8 (sha256 (bytes id)),
          ));
    }
