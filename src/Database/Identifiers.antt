-- ===== src/Database/Identifiers.antt =====
-- The role names of core/src/database.rs as identifiers of PostgreSQL, and the deployments that
-- core/src/reconcile.rs accepts.
use better_commerce.Prelude.{
  ℕ, zero, suc, ◌*◌, ◌/◌, ◌%◌, ◌≤◌, ◌<◌, ◌≡◌, refl, ◌≢◌, Bool, true, ◌||◌, ◌&&◌, Text, text, List,
  [], ◌∷◌, ◌++◌, map, ok, bytes, length, length-append, length-map, ltb, ◌==◌, arith, ap,
}
use better_commerce.Prelude.Strings.{encode_utf8}
use better_commerce.Prelude.Formats.{hex_digit, hex_byte, hex_bytes}
use better_commerce.Prelude.Chars.{all, take, is_ascii_alphanumeric}
use better_commerce.Database.Roles.{
  slug_char, slug, fingerprint, role_name, scoped_role_names, quoted_role,
}

abbrev pub is_role_byte : ℕ → Bool
is_role_byte b = is_ascii_alphanumeric b || b == 0x5f

-- A text that `quoted_role` accepts, not longer than PostgreSQL's limit for an identifier.
pub record IsIdentifier (role : Text) : Type 0 where
  pub quoted : quoted_role role ≡ ok (text "\"" ++ (role ++ text "\""))
  pub short : length (bytes role) ≤ 63

pub all-append : (test : ℕ → Bool) (s t : List ℕ) → all test (s ++ t) ≡ (all test s && all test t)
unfolding all
all-append test [] t = refl
all-append test (b ∷ s) t = ground (arith, all-append test s t)

bytes-role : (s : Text) → all is_role_byte s ≡ true → bytes s ≡ s
unfolding all bytes encode_utf8
bytes-role [] h = refl
bytes-role (c ∷ s) h = ground (arith, bytes-role s)

all-slug : (s : Text) → all is_role_byte (map slug_char s) ≡ true
unfolding all
all-slug [] = refl
all-slug (c ∷ s) = ground (arith, all-slug s)

pub all-take :
    (n : ℕ) (test : ℕ → Bool) (s : List ℕ) → all test s ≡ true → all test (take n s) ≡ true
unfolding all take
all-take zero test s h = refl
all-take (suc n) test [] h = refl
all-take (suc n) test (b ∷ s) h = ground (arith, all-take n test s)

hex_digit-role : (n : ℕ) → n < 16 → is_role_byte (hex_digit n) ≡ true
hex_digit-role n h = ground arith

all-hex_bytes :
    (bs : List ℕ) → all (λ b. ltb b 256) bs ≡ true → all is_role_byte (hex_bytes bs) ≡ true
unfolding all hex_bytes hex_byte
all-hex_bytes [] h = refl
all-hex_bytes (b ∷ bs) h =
    ground (arith, all-hex_bytes bs, hex_digit-role (b / 16), hex_digit-role (b % 16))

pub length-take : (n : ℕ) (s : List ℕ) → length (take n s) ≤ n
unfolding take
length-take zero s = omega arith
length-take (suc n) [] = omega arith
length-take (suc n) (b ∷ s) = omega (arith, length-take n s)

pub length-hex_bytes : (bs : List ℕ) → length (hex_bytes bs) ≡ 2 * length bs
unfolding hex_bytes hex_byte
length-hex_bytes [] = omega arith
length-hex_bytes (b ∷ bs) = omega (arith, length-hex_bytes bs)

module _ (sha256 : List ℕ → List ℕ) where
  -- The digest consists of bytes.
  abbrev pub HasBytes : Type 0
  HasBytes = (s : List ℕ) → all (λ b. ltb b 256) (sha256 s) ≡ true

  all-fingerprint : HasBytes → (name : Text) → all is_role_byte (fingerprint sha256 name) ≡ true
  all-fingerprint h name = all-hex_bytes _ (all-take 16 _ _ (h (bytes name)))

  length-tail : (name : Text) → length (slug name ++ (text "_" ++ fingerprint sha256 name)) ≤ 45
  length-tail name = rw (length-append (slug name) (text "_" ++ fingerprint sha256 name)) (
      omega (
        arith,
        length-map slug_char (take 12 name),
        length-take 12 name,
        length-hex_bytes (take 16 (sha256 (bytes name))),
        length-take 16 (sha256 (bytes name)),
      ))

  all-tail :
      HasBytes
      → (name : Text) → all is_role_byte (slug name ++ (text "_" ++ fingerprint sha256 name)) ≡ true
  all-tail h name =
      rw
        (
          all-append is_role_byte (slug name) (text "_" ++ fingerprint sha256 name),
          all-slug (take 12 name),
        )
        (unfold all in ground (arith, all-fingerprint h name))

  role_name-IsIdentifier :
      (c : ℕ) (prefix : Text)
      → HasBytes
      → (name : Text) → all is_role_byte (c ∷ prefix) ≡ true
      → length prefix ≤ 17
      → IsIdentifier (role_name sha256 (c ∷ prefix) name)
  role_name-IsIdentifier c prefix h name good short =
      let tail : Text = slug name ++ (text "_" ++ fingerprint sha256 name) in
      let fine : all is_role_byte (role_name sha256 (c ∷ prefix) name) ≡ true =
        rw (all-append is_role_byte (c ∷ prefix) tail, good, all-tail h name) refl in
      record {
        quoted =
            unfold quoted_role in
            rw (bytes-role (role_name sha256 (c ∷ prefix) name) fine, fine) refl;
        short =
            rw
              (
                bytes-role (role_name sha256 (c ∷ prefix) name) fine,
                length-append (c ∷ prefix) tail,
              )
              (omega (arith, length-tail name));
      }

  abbrev fourth : Text → ℕ
  fourth (a ∷ b ∷ c ∷ d ∷ s) = d
  fourth s = 0

  -- If the digest consists of bytes, the three role names of any database are accepted by
  -- `quoted_role`, have at most 63 bytes each, and no two of them are the same.
  pub scoped_role_names-IsIdentifier :
      HasBytes
      → (name : Text)
      → let (example, dispatcher, readiness) = scoped_role_names sha256 name in
        (IsIdentifier example × IsIdentifier dispatcher × IsIdentifier readiness)
        × ((example ≢ dispatcher) × (example ≢ readiness) × (dispatcher ≢ readiness))
  unfolding scoped_role_names all
  scoped_role_names-IsIdentifier h name = (
    (
      role_name-IsIdentifier 0x62 (text "c_example_") h name refl (omega arith),
      role_name-IsIdentifier 0x62 (text "c_dispatch_") h name refl (omega arith),
      role_name-IsIdentifier 0x62 (text "c_ready_") h name refl (omega arith),
    ),
    (
      λ e. omega (arith, ap fourth e),
      λ e. omega (arith, ap fourth e),
      λ e. omega (arith, ap fourth e),
    ),
  )
