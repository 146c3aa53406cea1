-- ===== src/Database/Checked.antt =====
-- What `RuntimeIdentity::parse` and the first checks of `migrate_installation` in
-- core/src/database.rs accept.
use better_commerce.Prelude.{
  ℕ, ◌≡◌, refl, ap, inl, inr, ◌↔◌, Bool, true, false, Option, none, some, Text, List, [], ◌∷◌, ok,
  text_eq, eq_of_text_eq, text_eq_refl, arith, subst, Bool-cases, text_eq_iff, and-eq-true, ◌==◌,
}
use mathlib.Core.Option.{some-injective}
use better_commerce.Prelude.Names.{IsName, IsName-iff, is_empty_iff}
use better_commerce.Prelude.Results.{
  ok_or, map_err, Result-cases, bind-ok, ok_or-ok, map_err-ok, ensure-ok, ensure-not-ok, ok_value,
}
use better_commerce.Prelude.Chars.{is_empty, trim_start_matches}
use better_commerce.Database.Types.{refused, url_error, Urls, RuntimeIdentity, Identities}
use better_commerce.Database.Roles.{quoted_role}
use better_commerce.Database.Identity.{
  option_eq, decode, same_target, parse_identity, enabled_identity, any_pair_shares,
  check_identities, wrong_database, no_password, wrong_role, same_role,
}
use better_commerce.Database.Script.{quote, ForSome, IsQuotable, AreQuotable}

quoted_role-ok : (role : Text) {q : Text} → quoted_role role ≡ ok q → q ≡ quote role
unfolding quoted_role
quoted_role-ok role h = ground arith

-- `quoted_role` accepts the names.
pub quoted_role-IsName_iff : (role : Text) → (quoted_role role ≡ ok (quote role)) ↔ IsName role
unfolding quoted_role
quoted_role-IsName_iff role =
    (λ h. (IsName-iff role).0 (ground arith), λ h. let good = (IsName-iff role).1 h in ground arith)

option_eq_iff :
    {A : Type 0} (eq : A → A → Bool)
    → ((a b : A) → (eq a b ≡ true) ↔ (a ≡ b))
    → (o p : Option A) → (option_eq eq o p ≡ true) ↔ (o ≡ p)
option_eq_iff eq same none none = (λ h. refl, λ h. refl)
option_eq_iff eq same none (some b) = (λ h. cc, λ h. cc)
option_eq_iff eq same (some a) none = (λ h. cc, λ h. cc)
option_eq_iff eq same (some a) (some b) =
    (λ h. ap some ((same a b).0 h), λ h. (same a b).1 (some-injective _ _ h))

pub text_eq-false_iff : (s t : Text) → (text_eq s t ≡ false) ↔ (¬ (s ≡ t))
text_eq-false_iff s t = (
  λ h e. cc (h, (text_eq_iff s t).1 e),
  λ h. elim (Bool-cases (text_eq s t)) [ inl e ↦ absurd (h ((text_eq_iff s t).0 e)) | inr e ↦ e ],
)

-- Roles that `quoted_role` accepts, no two of them the same.
pub record AreChecked (ids : Identities) : Type 0 where
  pub quotable : AreQuotable ids
  pub distinct : any_pair_shares (ids.example ∷ ids.dispatcher ∷ some ids.ready ∷ []) ≡ false

module _ (U : Urls) where
  -- The two URLs name one database, and the runtime URL has the expected role, which is not the
  -- operations role, and a password.
  pub record IsIdentity (runtime_url operations_url expected_role : Text)
      (identity : RuntimeIdentity) : Type 0 where
    pub runtime : U.Url
    pub operations : U.Url
    pub encoded : Text
    pub operations_role : Text
    pub runtime_parsed : U.parse runtime_url ≡ some runtime
    pub operations_parsed : U.parse operations_url ≡ some operations
    pub host : U.host_str runtime ≡ U.host_str operations
    pub port : U.port_or_known_default runtime ≡ U.port_or_known_default operations
    pub path : U.path runtime ≡ U.path operations
    pub role_decoded : U.percent_decode (U.username runtime) ≡ some identity.role
    pub named : IsName identity.role
    pub expected : identity.role ≡ expected_role
    pub password_given : U.password runtime ≡ some encoded
    pub password_decoded : U.percent_decode encoded ≡ some identity.password
    pub shown : ¬ (identity.password ≡ [])
    pub operations_decoded : U.percent_decode (U.username operations) ≡ some operations_role
    pub other : ¬ (identity.role ≡ operations_role)

  -- Two URLs of one database server and one database.
  same_target_iff :
      (a b : U.Url)
      → (same_target U a b ≡ true) ↔ (
          (U.host_str a ≡ U.host_str b)
          × ((U.port_or_known_default a ≡ U.port_or_known_default b) × (U.path a ≡ U.path b)))
  unfolding same_target
  same_target_iff a b = (
    λ h.
        let (host, h1) = and-eq-true _ _ h in
        let (port, path) = and-eq-true _ _ h1 in
        (
          (option_eq_iff text_eq text_eq_iff (U.host_str a) (U.host_str b)).0 host,
          (
            (option_eq_iff ◌==◌ eq_iff (U.port_or_known_default a) (U.port_or_known_default b)).0
                port,
            (text_eq_iff (U.path a) (U.path b)).0 path,
          ),
        ),
    λ (host, (port, path)).
        rw
          (
            (option_eq_iff text_eq text_eq_iff (U.host_str a) (U.host_str b)).1 host,
            (option_eq_iff ◌==◌ eq_iff (U.port_or_known_default a) (U.port_or_known_default b)).1
                port,
            (text_eq_iff (U.path a) (U.path b)).1 path,
          )
          refl,
  )
    where
      eq_iff : (m n : ℕ) → ((m == n) ≡ true) ↔ (m ≡ n)
      eq_iff m n = ground arith

  module _ (runtime_url operations_url expected_role : Text) (identity : RuntimeIdentity) where
    IsIdentity-parse :
        IsIdentity runtime_url operations_url expected_role identity
        → parse_identity U runtime_url operations_url expected_role ≡ ok identity
    unfolding parse_identity
    IsIdentity-parse i =
        rw
          (
            i.runtime_parsed,
            i.operations_parsed,
            (same_target_iff i.runtime i.operations).1 (i.host, (i.port, i.path)),
            i.role_decoded,
            (quoted_role-IsName_iff identity.role).1 i.named,
            ← i.expected,
            text_eq_refl identity.role,
            i.password_given,
            i.password_decoded,
            (is_empty_iff identity.password).1 i.shown,
            i.operations_decoded,
            (text_eq-false_iff identity.role i.operations_role).1 i.other,
          )
          refl

    abbrev identity_of : Text → Text → RuntimeIdentity
    identity_of role password = record { role = role; password = password }

    found :
        (runtime operations : U.Url) (role quoted encoded password operations_role : Text)
        → U.parse runtime_url ≡ some runtime
        → U.parse operations_url ≡ some operations
        → same_target U runtime operations ≡ true
        → U.percent_decode (U.username runtime) ≡ some role
        → quoted_role role ≡ ok quoted
        → text_eq role expected_role ≡ true
        → U.password runtime ≡ some encoded
        → U.percent_decode encoded ≡ some password
        → is_empty password ≡ false
        → U.percent_decode (U.username operations) ≡ some operations_role
        → text_eq role operations_role ≡ false
        → IsIdentity runtime_url operations_url expected_role (identity_of role password)
    found runtime operations role quoted encoded password operations_role a b c d e f g k l m n =
        record {
          runtime = runtime;
          operations = operations;
          encoded = encoded;
          operations_role = operations_role;
          runtime_parsed = a;
          operations_parsed = b;
          host = ((same_target_iff runtime operations).0 c).0;
          port = ((same_target_iff runtime operations).0 c).1.0;
          path = ((same_target_iff runtime operations).0 c).1.1;
          role_decoded = d;
          named = (quoted_role-IsName_iff role).0 (rw (← quoted_role-ok role e) e);
          expected = eq_of_text_eq role expected_role f;
          password_given = g;
          password_decoded = k;
          shown = (is_empty_iff password).0 l;
          operations_decoded = m;
          other = (text_eq-false_iff role operations_role).0 n;
        }

    parse-IsIdentity :
        parse_identity U runtime_url operations_url expected_role ≡ ok identity
        → IsIdentity runtime_url operations_url expected_role identity
    unfolding parse_identity
    parse-IsIdentity h =
        let (runtime, (a, h1)) = bind-ok (ok_or (U.parse runtime_url) url_error) _ h in
        let (operations, (b, h2)) = bind-ok (ok_or (U.parse operations_url) url_error) _ h1 in
        let (c, h3) = ensure-ok (same_target U runtime operations) wrong_database _ h2 in
        let (role, (d, h4)) = bind-ok (decode U (U.username runtime)) _ h3 in
        let (quoted, (e, h5)) = bind-ok (map_err refused (quoted_role role)) _ h4 in
        let (f, h6) = ensure-ok (text_eq role expected_role) wrong_role _ h5 in
        let (encoded, (g, h7)) = bind-ok (ok_or (U.password runtime) no_password) _ h6 in
        let (password, (k, h8)) = bind-ok (decode U encoded) _ h7 in
        let (l, h9) = ensure-not-ok (is_empty password) no_password _ h8 in
        let (operations_role, (m, h10)) = bind-ok (decode U (U.username operations)) _ h9 in
        let (n, is) = ensure-not-ok (text_eq role operations_role) same_role _ h10 in
        subst (IsIdentity runtime_url operations_url expected_role) (ok_value is) (
          found runtime operations role quoted encoded password operations_role (ok_or-ok _ _ a)
            (ok_or-ok _ _ b) c (ok_or-ok _ _ d) (map_err-ok refused _ e) f (ok_or-ok _ _ g)
            (ok_or-ok _ _ k) l (ok_or-ok _ _ m) n)

  -- `RuntimeIdentity::parse` gives an identity exactly if both URLs parse and have one host, one
  -- port and one path, its role is the decoded user of the first, is the expected one, has ASCII
  -- letters, digits and underscores only, at least one, and is not the decoded user of the second,
  -- and its password is the decoded password of the first and not empty.
  pub parse_identity-IsIdentity_iff :
      (runtime_url operations_url expected_role : Text) (identity : RuntimeIdentity)
      → (parse_identity U runtime_url operations_url expected_role ≡ ok identity)
        ↔ IsIdentity runtime_url operations_url expected_role identity
  parse_identity-IsIdentity_iff runtime_url operations_url expected_role identity = (
    parse-IsIdentity runtime_url operations_url expected_role identity,
    IsIdentity-parse runtime_url operations_url expected_role identity,
  )

  enabled_identity-quotable :
      (enabled : Bool) (url : Option Text) (operations_url expected_role missing : Text)
      {o : Option RuntimeIdentity}
      → enabled_identity U enabled url operations_url expected_role missing ≡ ok o
      → ForSome o IsQuotable
  unfolding enabled_identity
  enabled_identity-quotable false url operations_url expected_role missing {o} h =
      subst (λ o. ForSome o IsQuotable) (ok_value h) tt
  enabled_identity-quotable true none operations_url expected_role missing h = cc
  enabled_identity-quotable true (some url) operations_url expected_role missing {o} h =
      elim (Result-cases (parse_identity U url operations_url expected_role)) [
        | inl (i, e) ↦
            let it : IsIdentity url operations_url expected_role i =
              parse-IsIdentity url operations_url expected_role i e in
            subst (λ o. ForSome o IsQuotable) (ok_value (rw e at h))
              ((quoted_role-IsName_iff i.role).1 it.named)
        | inr (x, e) ↦ cc (rw e at h)
      ]

  module _ (sha256 : List ℕ → List ℕ) where
    pub check_identities-AreChecked :
        (operations_url : Text) (enabled : Bool) (example_url dispatcher_url : Option Text)
        (readiness_url : Text) {ids : Identities}
        → check_identities U sha256 operations_url enabled example_url dispatcher_url readiness_url
          ≡ ok ids
        → AreChecked ids
    unfolding check_identities
    check_identities-AreChecked operations_url enabled example_url dispatcher_url readiness_url
          {ids} h =
        let (operations, (a, h1)) = bind-ok (ok_or (U.parse operations_url) url_error) _ h in
        let (name, (b, h2)) =
          bind-ok (decode U (trim_start_matches 0x2f (U.path operations))) _ h1 in
        let (example, (c, h3)) = bind-ok (enabled_identity U enabled example_url _ _ _) _ h2 in
        let (dispatcher, (d, h4)) =
          bind-ok (enabled_identity U enabled dispatcher_url _ _ _) _ h3 in
        let (ready, (e, h5)) = bind-ok (parse_identity U readiness_url _ _) _ h4 in
        let (f, is) =
          ensure-not-ok (any_pair_shares (example ∷ dispatcher ∷ some ready ∷ [])) _ _ h5 in
        let ready_is : IsIdentity readiness_url operations_url _ ready =
          parse-IsIdentity readiness_url operations_url _ ready e in
        subst AreChecked (ok_value is) (record {
          quotable = record {
            example = enabled_identity-quotable enabled example_url operations_url _ _ c;
            dispatcher = enabled_identity-quotable enabled dispatcher_url operations_url _ _ d;
            ready = (quoted_role-IsName_iff ready.role).1 ready_is.named;
          };
          distinct = f;
        })
