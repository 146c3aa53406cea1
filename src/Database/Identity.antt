-- ===== src/Database/Identity.antt =====
-- `RuntimeIdentity::parse` of core/src/database.rs, and the checks of `migrate_installation` before
-- it connects.
use better_commerce.Prelude.{
  ℕ, Bool, true, false, not, ◌&&◌, ◌||◌, Option, none, some, Text, text, List, [], ◌∷◌, ◌==◌,
  text_eq, Result, ok,
}
use better_commerce.Prelude.Results.{ok_or, map_err, ensure, ◌>>=◌, ◌>>◌}
use better_commerce.Prelude.Chars.{is_empty, trim_start_matches}
use better_commerce.Database.Types.{
  DatabaseError, refused, url_error, utf8_error, Urls, RuntimeIdentity, Identities,
}
use better_commerce.Database.Roles.{scoped_role_names, quoted_role}

abbrev pub option_eq : {A : Type 0} → (A → A → Bool) → Option A → Option A → Bool
option_eq eq none none = true
option_eq eq (some a) (some b) = eq a b
option_eq eq _ _ = false

abbrev pub wrong_database : DatabaseError
wrong_database =
    refused (text "runtime and operations URLs must target the same installation database")

abbrev pub wrong_role : DatabaseError
wrong_role = refused (text "runtime role name does not belong to this installation database")

abbrev pub no_password : DatabaseError
no_password = refused (text "runtime URL needs a password")

abbrev pub same_role : DatabaseError
same_role = refused (text "runtime and operations must use distinct roles")

module _ (U : Urls) where
  abbrev pub decode : Text → Result DatabaseError Text
  decode s = ok_or (U.percent_decode s) utf8_error

  -- The host, the port and the path.
  unfoldable pub same_target : U.Url → U.Url → Bool
  same_target a b =
      option_eq text_eq (U.host_str a) (U.host_str b)
      && (option_eq ◌==◌ (U.port_or_known_default a) (U.port_or_known_default b)
          && text_eq (U.path a) (U.path b))

  -- `RuntimeIdentity::parse`.
  unfoldable pub parse_identity : Text → Text → Text → Result DatabaseError RuntimeIdentity
  parse_identity runtime_url operations_url expected_role = do
    runtime ← ok_or (U.parse runtime_url) url_error
    operations ← ok_or (U.parse operations_url) url_error
    ensure (same_target runtime operations) wrong_database
    role ← decode (U.username runtime)
    quoted ← map_err refused (quoted_role role)
    ensure (text_eq role expected_role) wrong_role
    encoded ← ok_or (U.password runtime) no_password
    password ← decode encoded
    ensure (not (is_empty password)) no_password
    operations_role ← decode (U.username operations)
    ensure (not (text_eq role operations_role)) same_role
    ok (record { role = role; password = password })

  -- `if example_enabled { Some(..) } else { None }`.
  unfoldable pub enabled_identity :
      Bool → Option Text → Text → Text → Text → Result DatabaseError (Option RuntimeIdentity)
  enabled_identity false url operations_url expected_role missing = ok none
  enabled_identity true url operations_url expected_role missing = do
    runtime_url ← ok_or url (refused missing)
    identity ← parse_identity runtime_url operations_url expected_role
    ok (some identity)

-- The two loops over the pairs of identities.
abbrev pub shares_role : Option RuntimeIdentity → Option RuntimeIdentity → Bool
shares_role (some a) (some b) = text_eq a.role b.role
shares_role _ _ = false

unfoldable pub any_shares : Option RuntimeIdentity → List (Option RuntimeIdentity) → Bool
any_shares left [] = false
any_shares left (right ∷ rest) = shares_role left right || any_shares left rest

unfoldable pub any_pair_shares : List (Option RuntimeIdentity) → Bool
any_pair_shares [] = false
any_pair_shares (left ∷ rest) = any_shares left rest || any_pair_shares rest

abbrev pub distinct_error : DatabaseError
distinct_error = refused (text "runtime, dispatcher, and readiness must use distinct roles")

module _ (U : Urls) (sha256 : List ℕ → List ℕ) where
  -- What `migrate_installation` does before it connects.
  unfoldable pub check_identities :
      Text → Bool → Option Text → Option Text → Text → Result DatabaseError Identities
  check_identities operations_url example_enabled example_url dispatcher_url readiness_url = do
    operations ← ok_or (U.parse operations_url) url_error
    database_name ← decode U (trim_start_matches 0x2f (U.path operations))
    let (example_role, dispatcher_role, ready_role) = scoped_role_names sha256 database_name
    example ←
        enabled_identity U example_enabled example_url operations_url example_role
          (text "enabled example module needs a runtime database URL")
    dispatcher ←
        enabled_identity U example_enabled dispatcher_url operations_url dispatcher_role
          (text "enabled example module needs a dispatcher database URL")
    ready ← parse_identity U readiness_url operations_url ready_role
    ensure (not (any_pair_shares (example ∷ dispatcher ∷ some ready ∷ []))) distinct_error
    ok (record { example = example; dispatcher = dispatcher; ready = ready })
