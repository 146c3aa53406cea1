-- ===== src/Reconcile/Handover.antt =====
-- The URLs that core/src/reconcile.rs hands over to the program `migrate`, as `migrate_installation`
-- of core/src/database.rs checks them.
use better_commerce.Prelude.{
  ℕ, ◌≡◌, refl, sym, ◌∙◌, true, false, some, Text, text, [], ◌∷◌, ◌++◌, ok, bytes, get, put,
  text_eq, text_lt, arith, ◌==◌, Bool-cases, inl, inr,
}
use mathlib.Core.Option.{some-injective}
use better_commerce.Prelude.Strings.{encode_utf8}
use better_commerce.Prelude.Results.{bind-ok, ok_value}
use better_commerce.Prelude.Chars.{is_empty, trim_start_matches, is_ascii_lowercase, all}
use better_commerce.Manifest.Types.{Crates, LocalDeployment}
use better_commerce.Database.Types.{Urls, Identities}
use better_commerce.Database.Roles.{scoped_role_names, quoted_role}
use better_commerce.Database.Identifiers.{HasBytes, scoped_role_names-IsIdentifier}
use better_commerce.Database.Identity.{
  enabled_identity, parse_identity, any_pair_shares, any_shares, check_identities,
}
use better_commerce.Database.Script.{quote}
use better_commerce.Database.Checked.{
  parse_identity-IsIdentity_iff, quoted_role-IsName_iff, text_eq-false_iff,
}
use better_commerce.Prelude.Names.{is_empty_iff}
use better_commerce.Reconcile.Urls.{
  ReadsUrls, IsCoded, IsRead, database_url-IsRead, role-fine, database-fine,
}
use better_commerce.Reconcile.Types.{Machine, ResolvedSecrets}
use better_commerce.Reconcile.Deployment.{
  database_url, valid_database, validate_local_deployment, first_is,
}
use better_commerce.Reconcile.Secrets.{resolve, resolve_secrets}
use better_commerce.Reconcile.Sources.{resolve-Source}
use better_commerce.Reconcile.Plan.{environment_of}

module _ (U : Urls) (encode : Text → Text) (name : Text) where
  module _ (role password operations_password : Text) (runtime : IsRead U encode role password name)
      (operations : IsRead U encode (text "postgres") operations_password name) where
    parse_identity-read :
        quoted_role role ≡ ok (quote role)
        → is_empty password ≡ false
        → text_eq role (text "postgres") ≡ false
        → parse_identity U
            (database_url encode role password (text "postgres") name)
            (database_url encode (text "postgres") operations_password (text "postgres") name)
            role
          ≡ ok (record { role = role; password = password })
    parse_identity-read q full other =
        (parse_identity-IsIdentity_iff U _ _ role (record { role = role; password = password })).1
          (record {
            runtime = runtime.url;
            operations = operations.url;
            encoded = encode password;
            operations_role = text "postgres";
            runtime_parsed = runtime.parsed;
            operations_parsed = operations.parsed;
            host = runtime.host ∙ sym operations.host;
            port = runtime.port ∙ sym operations.port;
            path = runtime.path ∙ sym operations.path;
            role_decoded = rw runtime.user_read runtime.user_decoded;
            named = (quoted_role-IsName_iff role).0 q;
            expected = refl;
            password_given = runtime.password_read;
            password_decoded = runtime.password_decoded;
            shown = (is_empty_iff password).0 full;
            operations_decoded = rw operations.user_read operations.user_decoded;
            other = (text_eq-false_iff role (text "postgres")).0 other;
          })

no_slash :
    (c : ℕ) (s : Text) → first_is is_ascii_lowercase (bytes (c ∷ s)) ≡ true → (c == 0x2f) ≡ false
unfolding bytes encode_utf8
no_slash c s h = ground arith

-- The name of a valid database follows the slash of a path.
trim-database :
    (name : Text) → valid_database name ≡ true → trim_start_matches 0x2f (text "/" ++ name) ≡ name
unfolding valid_database trim_start_matches
trim-database [] h = cc
trim-database (c ∷ s) h = rw (no_slash c s (ground arith)) refl

valid-database :
    (local : LocalDeployment)
    → validate_local_deployment local ≡ ok tt
    → valid_database local.database_name ≡ true
unfolding validate_local_deployment
valid-database local h = elim (Bool-cases (valid_database local.database_name)) [
  | inl e ↦ e
  | inr e ↦ ground arith
]

module _ {X : Crates} (M : Machine X) where
  resolve_secrets-shown :
      (local : LocalDeployment) (dir : Text) {secrets : ResolvedSecrets}
      → resolve_secrets M local dir ≡ ok secrets
      → (is_empty secrets.example_password ≡ false)
        × ((is_empty secrets.dispatcher_password ≡ false)
            × (is_empty secrets.readiness_password ≡ false))
  unfolding resolve_secrets
  resolve_secrets-shown local dir h =
      let (o, (a, h1)) = bind-ok (resolve M local.secrets.operations_password dir) _ h in
      let (e, (b, h2)) = bind-ok (resolve M local.secrets.example_password dir) _ h1 in
      let (d, (c, h3)) = bind-ok (resolve M local.secrets.dispatcher_password dir) _ h2 in
      let (r, (f, is)) = bind-ok (resolve M local.secrets.readiness_password dir) _ h3 in
      rw (← ok_value is) (
        (resolve-Source M local.secrets.example_password dir b).1,
        (
          (resolve-Source M local.secrets.dispatcher_password dir c).1,
          (resolve-Source M local.secrets.readiness_password dir f).1,
        ),
      )

  -- The identities of a deployment.
  abbrev pub identities_of : Text → ResolvedSecrets → Identities
  identities_of name secrets =
      let (example_role, dispatcher_role, readiness_role) = scoped_role_names M.sha256 name in
      record {
        example = some (record { role = example_role; password = secrets.example_password });
        dispatcher =
            some (record { role = dispatcher_role; password = secrets.dispatcher_password });
        ready = record { role = readiness_role; password = secrets.readiness_password };
      }

  roles_distinct :
      (name : Text) (secrets : ResolvedSecrets)
      → let ids = identities_of name secrets in
        any_pair_shares (ids.example ∷ ids.dispatcher ∷ some ids.ready ∷ []) ≡ false
  unfolding any_pair_shares any_shares scoped_role_names text_eq
  roles_distinct name secrets = refl

  no_operations_role :
      (name : Text)
      → let (example_role, dispatcher_role, readiness_role) = scoped_role_names M.sha256 name in
        (text_eq example_role (text "postgres") ≡ false)
        × ((text_eq dispatcher_role (text "postgres") ≡ false)
            × (text_eq readiness_role (text "postgres") ≡ false))
  unfolding scoped_role_names text_eq
  no_operations_role name = (refl, (refl, refl))

  module _ (U : Urls) (name : Text) (secrets : ResolvedSecrets) where
    -- The percent-encoding works for the four passwords.
    pub record AreCoded : Type 0 where
      pub operations : IsCoded U M.utf8_percent_encode secrets.operations_password
      pub example : IsCoded U M.utf8_percent_encode secrets.example_password
      pub dispatcher : IsCoded U M.utf8_percent_encode secrets.dispatcher_password
      pub ready : IsCoded U M.utf8_percent_encode secrets.readiness_password

    operations-IsRead :
        ReadsUrls U
        → valid_database name ≡ true
        → AreCoded
        → IsRead U M.utf8_percent_encode (text "postgres") secrets.operations_password name
    unfolding all
    operations-IsRead crate valid codes =
        database_url-IsRead U M.utf8_percent_encode (text "postgres") secrets.operations_password
          name crate codes.operations refl refl (database-fine name valid)

    role-IsRead :
        (role password : Text)
        → ReadsUrls U
        → valid_database name ≡ true
        → IsCoded U M.utf8_percent_encode password
        → quoted_role role ≡ ok (quote role)
        → IsRead U M.utf8_percent_encode role password name
    role-IsRead role password crate valid code q =
        let (full, fine) = role-fine role q in
        database_url-IsRead U M.utf8_percent_encode role password name crate code full fine
          (database-fine name valid)

    abbrev url_of : Text → Text → Text
    url_of user password = database_url M.utf8_percent_encode user password (text "postgres") name

    check_identities-read :
        HasBytes M.sha256
        → valid_database name ≡ true
        → (is_empty secrets.example_password ≡ false)
          × ((is_empty secrets.dispatcher_password ≡ false)
              × (is_empty secrets.readiness_password ≡ false))
        → ReadsUrls U
        → AreCoded
        → check_identities U M.sha256
            (url_of (text "postgres") secrets.operations_password)
            true
            (some (url_of (scoped_role_names M.sha256 name).0 secrets.example_password))
            (some (url_of (scoped_role_names M.sha256 name).1 secrets.dispatcher_password))
            (url_of (scoped_role_names M.sha256 name).2 secrets.readiness_password)
          ≡ ok (identities_of name secrets)
    unfolding check_identities enabled_identity
    check_identities-read h valid (e, (d, r)) crate codes =
        let ((qe, qd, qr), _) = scoped_role_names-IsIdentifier M.sha256 h name in
        let (oe, (od, or)) = no_operations_role name in
        let operations = operations-IsRead crate valid codes in
        let example = role-IsRead _ _ crate valid codes.example qe.quoted in
        let dispatcher = role-IsRead _ _ crate valid codes.dispatcher qd.quoted in
        let ready = role-IsRead _ _ crate valid codes.ready qr.quoted in
        rw
          (
            operations.parsed,
            operations.path,
            trim-database name valid,
            crate.plain name (database-fine name valid),
            parse_identity-read U M.utf8_percent_encode name _ secrets.example_password
                secrets.operations_password example operations qe.quoted e oe,
            parse_identity-read U M.utf8_percent_encode name _ secrets.dispatcher_password
                secrets.operations_password dispatcher operations qd.quoted d od,
            parse_identity-read U M.utf8_percent_encode name _ secrets.readiness_password
                secrets.operations_password ready operations qr.quoted r or,
            roles_distinct name secrets,
          )
          refl

-- For a valid deployment whose secrets are resolved, where sha256 gives bytes, the crate `url` reads
-- each part of a URL as it is written if no part has a separator in it, the decoding leaves a name
-- as it is, and the percent-encoding of the secrets has no separator, is not empty and is undone by
-- the decoding: the program `migrate`, given the environment that `reconcile` hands over, accepts
-- the roles of the deployment with these secrets as passwords.
pub environment_of-check_identities :
    {X : Crates} (M : Machine X) (U : Urls) (local : LocalDeployment) (dir manifest_path : Text)
    (secrets : ResolvedSecrets) (operations_url readiness_url : Text)
    → HasBytes M.sha256
    → validate_local_deployment local ≡ ok tt
    → resolve_secrets M local dir ≡ ok secrets
    → ReadsUrls U
    → AreCoded M U local.database_name secrets
    → get (text "OPERATIONS_DATABASE_URL") (environment_of M local manifest_path secrets)
      ≡ some operations_url
    → get (text "READINESS_DATABASE_URL") (environment_of M local manifest_path secrets)
      ≡ some readiness_url
    → let given = environment_of M local manifest_path secrets in
      check_identities U M.sha256 operations_url true
        (get (text "EXAMPLE_RUNTIME_DATABASE_URL") given)
        (get (text "DISPATCHER_DATABASE_URL") given)
        readiness_url
      ≡ ok (identities_of M local.database_name secrets)
unfolding get put text_eq text_lt
environment_of-check_identities M U local dir manifest_path secrets operations_url readiness_url h
      valid resolved crate codes operations ready =
    rw (← some-injective _ _ operations, ← some-injective _ _ ready)
      (check_identities-read M U local.database_name secrets h (valid-database local valid)
        (resolve_secrets-shown M local dir resolved) crate codes)
