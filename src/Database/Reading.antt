-- ===== src/Database/Reading.antt =====
-- How a server reads the statements of core/src/database.rs that contain an answer of its own or a
-- password: keywords, and quoted tokens in which a doubled quote stands for one.
use better_commerce.Prelude.{
  ℕ, ◌≡◌, refl, ap, ◌∙◌, Bool, true, false, ◌&&◌, ◌==◌, Option, none, some, Text, text, List, [],
  ◌∷◌, ◌++◌, ok, bytes, arith, if◌then◌else◌,
}
use mathlib.Core.List.{append_assoc, append-nil}
use mathlib.Core.Option.{bind}
use better_commerce.Database.Roles.{quoted_role}
use better_commerce.Database.Identifiers.{all-append, is_role_byte}
use better_commerce.Prelude.Chars.{all}
use better_commerce.Prelude.Strings.{encode_utf8}
use better_commerce.Database.Sql.{
  Statement, alter_role, create_role, revoke_public_connect, grant_connect, sql_text, doubled,
  database_identifier, password_literal,
}
use better_commerce.Database.Script.{quote}

pub data Part : Type 0 where
  keyword : Text → Part
  quoted : ℕ → Part

abbrev before : ℕ → Option (Text × Text) → Option (Text × Text)
before c none = none
before c (some (token, rest)) = some (c ∷ token, rest)

-- The token up to its closing quote; the flag says that a quote was read just before.
unfoldable pub scan : ℕ → Bool → Text → Option (Text × Text)
scan q false [] = none
scan q true [] = some ([], [])
scan q false (c ∷ s) =
    let closing = scan q true s in
    let inside = scan q false s in if c == q then closing else before c inside
scan q true (c ∷ s) =
    let inside = scan q false s in if c == q then before q inside else some ([], c ∷ s)

unfoldable pub unquote : ℕ → Text → Option (Text × Text)
unquote q [] = none
unquote q (c ∷ s) = if c == q then scan q false s else none

unfoldable pub after_keyword : Text → Text → Option Text
after_keyword [] s = some s
after_keyword (k ∷ ks) [] = none
after_keyword (k ∷ ks) (c ∷ s) = let rest = after_keyword ks s in if k == c then rest else none

abbrev pub read_end : Text → Option (List Text)
read_end [] = some []
read_end (c ∷ s) = none

abbrev with_token : Text → Option (List Text) → Option (List Text)
with_token token none = none
with_token token (some tokens) = some (token ∷ tokens)

-- The quoted tokens of a text that consists of the parts and nothing more.
unfoldable pub read : List Part → Text → Option (List Text)
read [] s = read_end s
read (keyword k ∷ parts) s = bind (after_keyword k s) (read parts)
read (quoted q ∷ parts) s = bind (unquote q s) (λ (token, rest). with_token token (read parts rest))

abbrev opens_with : ℕ → Text → Bool
opens_with q [] = false
opens_with q (c ∷ s) = c == q

scan-doubled :
    (q : ℕ) (token rest : Text)
    → opens_with q rest ≡ false
    → scan q false (doubled q token ++ q ∷ rest) ≡ some (token, rest)
unfolding scan doubled
scan-doubled q [] [] h = ground arith
scan-doubled q [] (c ∷ rest) h = ground arith
scan-doubled q (c ∷ token) rest h = ground (arith, scan-doubled q token rest h)

after_keyword-append : (k s : Text) → after_keyword k (k ++ s) ≡ some s
unfolding after_keyword
after_keyword-append [] s = refl
after_keyword-append (c ∷ k) s = ground (arith, after_keyword-append k s)

first_byte : (c : ℕ) → all is_role_byte (encode_utf8 c) ≡ true → (c == 0x22) ≡ false
unfolding encode_utf8 all
first_byte c h = ground arith

-- A role that `quoted_role` accepts contains no quote.
doubled-role : (role : Text) → all is_role_byte (bytes role) ≡ true → doubled 0x22 role ≡ role
unfolding doubled bytes
doubled-role [] h = refl
doubled-role (c ∷ s) h =
    let both : (all is_role_byte (encode_utf8 c) && all is_role_byte (bytes s)) ≡ true =
      rw (all-append is_role_byte (encode_utf8 c) (bytes s)) at h in
    ground (arith, both, doubled-role s, first_byte c)

quotable-doubled : (role : Text) → quoted_role role ≡ ok (quote role) → doubled 0x22 role ≡ role
unfolding quoted_role
quotable-doubled role h = doubled-role role (ground arith)

module _ (parts : List Part) where
  read-keyword : (k s : Text) → read (keyword k ∷ parts) (k ++ s) ≡ read parts s
  unfolding read bind
  read-keyword k s = rw (after_keyword-append k s) refl

  read-quoted :
      (q : ℕ) (token s : Text)
      → opens_with q s ≡ false
      → read (quoted q ∷ parts) ((q ∷ (doubled q token ++ q ∷ [])) ++ s)
        ≡ with_token token (read parts s)
  unfolding read bind unquote
  read-quoted q token s h =
      rw (append_assoc (doubled q token) (q ∷ []) s, scan-doubled q token s h) (ground arith)

  read-role :
      (role s : Text)
      → quoted_role role ≡ ok (quote role)
      → opens_with 0x22 s ≡ false
      → read (quoted 0x22 ∷ parts) (quote role ++ s) ≡ with_token role (read parts s)
  read-role role s h opens = rw (quotable-doubled role h) at (read-quoted 0x22 role s opens)

read-keyword_last : (k : Text) → read (keyword k ∷ []) k ≡ some []
unfolding read
read-keyword_last k = rw (append-nil k) at (read-keyword [] k [])

read-quoted_last :
    (q : ℕ) (token : Text)
    → read (quoted q ∷ []) (q ∷ (doubled q token ++ q ∷ [])) ≡ some (token ∷ [])
unfolding read
read-quoted_last q token =
    rw (append-nil (q ∷ (doubled q token ++ q ∷ []))) at (read-quoted [] q token [] refl)

read-role_last :
    (role : Text)
    → quoted_role role ≡ ok (quote role)
    → read (quoted 0x22 ∷ []) (quote role) ≡ some (role ∷ [])
read-role_last role h = rw (quotable-doubled role h) at (read-quoted_last 0x22 role)

-- A statement with a role and a password.
read-role_statement :
    (verb middle role password : Text)
    → quoted_role role ≡ ok (quote role)
    → read
        (keyword verb ∷ quoted 0x22 ∷ keyword (0x20 ∷ middle) ∷ quoted 0x27 ∷ [])
        (verb ++ (quote role ++ ((0x20 ∷ middle) ++ password_literal password)))
      ≡ some (role ∷ password ∷ [])
read-role_statement verb middle role password h =
    let tail : Text = (0x20 ∷ middle) ++ password_literal password in
    read-keyword _ verb (quote role ++ tail)
    ∙ (read-role _ role tail h refl
        ∙ ap (with_token role) (
            read-keyword _ (0x20 ∷ middle) (password_literal password)
            ∙ read-quoted_last 0x27 password))

-- A statement with the name of a database, before a text that is read.
read-database_statement :
    (verb after database : Text) (parts : List Part) (tokens : List Text)
    → read parts (0x20 ∷ after) ≡ some tokens
    → read
        (keyword verb ∷ quoted 0x22 ∷ parts)
        (verb ++ (database_identifier database ++ (0x20 ∷ after)))
      ≡ some (database ∷ tokens)
read-database_statement verb after database parts tokens h =
    read-keyword _ verb (database_identifier database ++ (0x20 ∷ after))
    ∙ (read-quoted parts 0x22 database (0x20 ∷ after) refl ∙ ap (with_token database) h)

-- The parts of a statement that contains a password or the name of the database.
unfoldable pub parts_of : Statement → List Part
parts_of (alter_role role password) =
    keyword (text "ALTER ROLE ") ∷ quoted 0x22 ∷ keyword (text " PASSWORD ") ∷ quoted 0x27 ∷ []
parts_of (create_role role password) =
    keyword (text "CREATE ROLE ")
    ∷ quoted 0x22
    ∷ keyword (text " LOGIN NOINHERIT PASSWORD ")
    ∷ quoted 0x27
    ∷ []
parts_of (revoke_public_connect database) =
    keyword (text "REVOKE CONNECT ON DATABASE ") ∷ quoted 0x22 ∷ keyword (text " FROM PUBLIC") ∷ []
parts_of (grant_connect database role) =
    keyword (text "GRANT CONNECT ON DATABASE ")
    ∷ quoted 0x22
    ∷ keyword (text " TO ")
    ∷ quoted 0x22
    ∷ []
parts_of _ = []

-- For a role that `quoted_role` accepts, whatever the password and the name of the database are:
-- the statements that contain them are read back as exactly these, with nothing before, between
-- or after them but the statement's keywords.
pub sql_text-read :
    (role password database : Text)
    → quoted_role role ≡ ok (quote role)
    → let alter = alter_role (quote role) password in
      let create = create_role (quote role) password in
      let revoke = revoke_public_connect database in
      let grant = grant_connect database (quote role) in
      ((read (parts_of alter) (sql_text alter) ≡ some (role ∷ password ∷ []))
        × (read (parts_of create) (sql_text create) ≡ some (role ∷ password ∷ [])))
      × ((read (parts_of revoke) (sql_text revoke) ≡ some (database ∷ []))
          × (read (parts_of grant) (sql_text grant) ≡ some (database ∷ role ∷ [])))
unfolding parts_of sql_text
sql_text-read role password database h = (
  (
    read-role_statement (text "ALTER ROLE ") (text "PASSWORD ") role password h,
    read-role_statement (text "CREATE ROLE ") (text "LOGIN NOINHERIT PASSWORD ") role password h,
  ),
  (
    read-database_statement (text "REVOKE CONNECT ON DATABASE ") (text "FROM PUBLIC") database _ []
        (read-keyword_last (text " FROM PUBLIC")),
    read-database_statement (text "GRANT CONNECT ON DATABASE ") (text "TO " ++ quote role) database
        _ (role ∷ []) (read-keyword _ (text " TO ") (quote role) ∙ read-role_last role h),
  ),
)
