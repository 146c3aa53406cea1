-- ===== src/Reconcile/Urls.antt =====
-- How the crates `url` and `percent-encoding` treat the URLs that `database_url` of
-- core/src/reconcile.rs writes.
use better_commerce.Prelude.{
  ℕ, ◌≡◌, refl, Bool, true, false, ◌&&◌, ◌||◌, some, Text, text, [], ◌∷◌, ◌++◌, ok, bytes, arith,
  ◌==◌,
}
use better_commerce.Prelude.Strings.{encode_utf8}
use better_commerce.Prelude.Chars.{is_empty, all, is_ascii_alphanumeric, is_ascii_lowercase}
use better_commerce.Prelude.Parsing.{all-append, all-implies}
use better_commerce.Database.Types.{Urls}
use better_commerce.Database.Roles.{quoted_role}
use better_commerce.Database.Identifiers.{is_role_byte}
use better_commerce.Database.Script.{quote}
use better_commerce.Reconcile.Deployment.{database_url, valid_database, is_database_byte}

-- What the percent-encoding of all but letters and digits leaves.
abbrev pub is_coded_byte : ℕ → Bool
is_coded_byte b = is_ascii_alphanumeric b || b == 0x25

-- A URL that is read as it is written: host, port, path, user and password.
pub record ReadsAs (U : Urls) (source user secret host name : Text) : Type 0 where
  pub url : U.Url
  pub parsed : U.parse source ≡ some url
  pub host_read : U.host_str url ≡ some host
  pub port_read : U.port_or_known_default url ≡ some 5432
  pub path_read : U.path url ≡ text "/" ++ name
  pub user_read : U.username url ≡ user
  pub secret_read : U.password url ≡ some secret

-- The crate `url` reads each part where it stands, if no part has a separator in it, and
-- decodes a text without a percent sign to itself.
pub record ReadsUrls (U : Urls) : Type 0 where
  pub reads :
      (user secret host name : Text)
      → is_empty user ≡ false
      → all is_role_byte user ≡ true
      → is_empty secret ≡ false
      → all is_coded_byte secret ≡ true
      → is_empty host ≡ false
      → all is_ascii_lowercase host ≡ true
      → all is_role_byte name ≡ true
      → ReadsAs U
          (text "postgres://"
            ++ (user ++ (text ":" ++ (secret ++ (text "@" ++ (host ++ (text ":5432/" ++ name)))))))
          user
          secret
          host
          name
  pub plain : (s : Text) → all is_role_byte s ≡ true → U.percent_decode s ≡ some s

-- The percent-encoding of a text has no separator, is not empty, and is undone.
pub record IsCoded (U : Urls) (encode : Text → Text) (s : Text) : Type 0 where
  pub coded : all is_coded_byte (encode s) ≡ true
  pub full : is_empty (encode s) ≡ false
  pub decoded : U.percent_decode (encode s) ≡ some s

-- How the URL of a user is read: its parts are those that it was made of, and the percent-encoding
-- of the password is undone.
pub record IsRead (U : Urls) (encode : Text → Text) (user password name : Text) : Type 0 where
  pub url : U.Url
  pub parsed : U.parse (database_url encode user password (text "postgres") name) ≡ some url
  pub host : U.host_str url ≡ some (text "postgres")
  pub port : U.port_or_known_default url ≡ some 5432
  pub path : U.path url ≡ text "/" ++ name
  pub user_read : U.username url ≡ user
  pub user_decoded : U.percent_decode user ≡ some user
  pub password_read : U.password url ≡ some (encode password)
  pub password_decoded : U.percent_decode (encode password) ≡ some password

pub database_url-IsRead :
    (U : Urls) (encode : Text → Text) (user password name : Text)
    → ReadsUrls U
    → IsCoded U encode password
    → is_empty user ≡ false
    → all is_role_byte user ≡ true
    → all is_role_byte name ≡ true
    → IsRead U encode user password name
unfolding database_url all
database_url-IsRead U encode user password name crate code full user_fine name_fine =
    let r =
      crate.reads user (encode password) (text "postgres") name full user_fine code.full code.coded
        refl refl name_fine in
    record {
      url = r.url;
      parsed = r.parsed;
      host = r.host_read;
      port = r.port_read;
      path = r.path_read;
      user_read = r.user_read;
      user_decoded = crate.plain user user_fine;
      password_read = r.secret_read;
      password_decoded = code.decoded;
    }

one_byte : (c : ℕ) → all is_role_byte (encode_utf8 c) ≡ true → is_role_byte c ≡ true
unfolding encode_utf8 all
one_byte c h = ground arith

-- The bytes of letters, digits and underscores are these.
pub role_bytes : (s : Text) → all is_role_byte (bytes s) ≡ true → all is_role_byte s ≡ true
unfolding bytes all
role_bytes [] h = refl
role_bytes (c ∷ s) h =
    let both : (all is_role_byte (encode_utf8 c) && all is_role_byte (bytes s)) ≡ true =
      rw (all-append is_role_byte (encode_utf8 c) (bytes s)) at h in
    rw (one_byte c (ground arith), role_bytes s (ground arith)) refl

pub role-fine :
    (role : Text)
    → quoted_role role ≡ ok (quote role)
    → (is_empty role ≡ false) × (all is_role_byte role ≡ true)
unfolding quoted_role
role-fine role h = (ground arith, role_bytes role (ground arith))

pub database-fine : (name : Text) → valid_database name ≡ true → all is_role_byte name ≡ true
unfolding valid_database
database-fine name h =
    role_bytes name
      (all-implies is_database_byte is_role_byte (bytes name) (λ b k. ground arith) (ground arith))
