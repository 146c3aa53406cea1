-- ===== src/Database/Parts.antt =====
-- What the helpers of `migrate_installation` in core/src/database.rs send: no scripted statement.
use better_commerce.Prelude.{
  ◌≡◌, refl, Bool, true, false, not, Option, none, some, Text, List, [], ◌∷◌, Result, ok, err, ℕ,
  Bool-cases, inl, inr, ap, sym, Outcome, returns, ◌==◌,
}
use better_commerce.Dispatcher.Types.{SqlError}
use better_commerce.Database.Types.{DatabaseError, RuntimeIdentity}
use better_commerce.Database.Roles.{quoted_role}
use better_commerce.Database.Sql.{
  Statement, alter_role, create_role, revoke_public_connect, grant_connect,
}
use better_commerce.Database.Session.{
  Server, Session, Log, resume, answered_by, finish, expect, when_some, ask_count, execute, ◌>>=◌,
  ◌>>◌,
}
use better_commerce.Database.Provision.{
  module_is_initialized, history_is_applied, history_query, applied_query, stop_if, provision_role,
  role_statement, exists_query, other_grants_query, assigned_error, grant_database_connect,
  revoke_database_public_connect, database_query, ensure_role_is_scoped, privileged_query,
  memberships_query, other_schemas_query, database_create_query, privileges_error,
}
use better_commerce.Database.Migrate.{example_schema, removal_error, execute_for, refuse_removal}
use better_commerce.Database.Sent.{
  Sends, is_scripted, resume-Sent, quiet-Sends, finish-Sends, stop-Sends, ask_bool-Sends,
  ask_count-Sends, ask_text-Sends, execute-Sends, script-Sends,
}
use better_commerce.Database.Script.{quote, for_some, ForSome, IsQuotable}

abbrev scripted_return : Outcome DatabaseError Statement → Bool
scripted_return (returns a) = is_scripted a
scripted_return _ = false

module _ (S : Server) where
  pub stop_if-Sends : (b : Bool) (e : DatabaseError) → Sends (stop_if b e) []
  stop_if-Sends true e = stop-Sends e []
  stop_if-Sends false e = finish-Sends tt

  pub history_is_applied-Sends :
      (schema : Text) (b : Bool) → Sends (history_is_applied S schema b) []
  history_is_applied-Sends schema false = finish-Sends false
  history_is_applied-Sends schema true = ask_bool-Sends S (applied_query schema) []

  pub module_is_initialized-Sends : (schema : Text) → Sends (module_is_initialized S schema) []
  unfolding module_is_initialized
  module_is_initialized-Sends schema =
      quiet-Sends _ _ _ (ask_bool-Sends S history_query _) (history_is_applied-Sends schema)

  pub refuse_removal-Sends : (enabled : Bool) → Sends (refuse_removal S enabled) []
  refuse_removal-Sends true = finish-Sends tt
  refuse_removal-Sends false =
      quiet-Sends _ _ _ (module_is_initialized-Sends example_schema)
        (λ b. stop_if-Sends b removal_error)

  -- A quoted role before the rest of the session.
  pub expect-Sends :
      {B : Type 0} (identity : RuntimeIdentity) (rest : Text → Session B) (t : List Statement)
      → IsQuotable identity
      → Sends (rest (quote identity.role)) t
      → Sends (expect (quoted_role identity.role) >>= rest) t
  expect-Sends identity rest t q later log = rw q (later log)

  pub for-Sends :
      {B : Type 0} (identity : RuntimeIdentity) (statement : Text → Statement) (rest : Session B)
      (t : List Statement)
      → IsQuotable identity
      → is_scripted (statement (quote identity.role)) ≡ true
      → Sends rest t
      → Sends (execute_for S identity statement >> rest) (statement (quote identity.role) ∷ t)
  for-Sends identity statement rest t q e later log =
      rw q (script-Sends S (statement (quote identity.role)) rest t e later log)

  pub for_last-Sends :
      (identity : RuntimeIdentity) (statement : Text → Statement)
      → IsQuotable identity
      → is_scripted (statement (quote identity.role)) ≡ true
      → Sends (execute_for S identity statement) (statement (quote identity.role) ∷ [])
  for_last-Sends identity statement q e log =
      rw q (rw e at (execute-Sends S (statement (quote identity.role)) log))

  pub when_some-Sends :
      {A : Type 0} (o : Option A) (rest : A → Session (Unit {0})) (s : A → List Statement)
      (P : A → Type 0)
      → ForSome o P
      → ((a : A) → P a → Sends (rest a) (s a))
      → Sends (when_some o rest) (for_some o s)
  when_some-Sends none rest s P p sends = finish-Sends tt
  when_some-Sends (some a) rest s P p sends = sends a p

  alter_role-Returns :
      (role password : Text) (r : Result SqlError ℕ) (log : Log) (a : Statement)
      → (resume
          (answered_by r, log)
          (λ n. stop_if (not (n == 0)) assigned_error >> finish (alter_role role password))).0
        ≡ returns a
      → is_scripted a ≡ false
  alter_role-Returns role password (ok n) log a e = elim (Bool-cases (n == 0)) [
    | inl zero' ↦ unscripted (rw zero' at e)
    | inr more ↦ cc (rw more at e)
  ]
    where
      unscripted :
          ◌≡◌ {A = Outcome DatabaseError Statement} (returns (alter_role role password)) (returns a)
          → is_scripted a ≡ false
      unscripted e = ap scripted_return (sym e)
  alter_role-Returns role password (err x) log a e = cc

  role_statement-Returns :
      (role : Text) (identity : RuntimeIdentity) (exists : Bool) (log : Log) (a : Statement)
      → (role_statement S role identity exists log).0 ≡ returns a
      → is_scripted a ≡ false
  unfolding ask_count
  role_statement-Returns role identity false log a e = ap scripted_return (sym e)
  role_statement-Returns role identity true log a e =
      alter_role-Returns role identity.password
        (S.fetch_count log other_grants_query (identity.role ∷ []))
        (ask_count S other_grants_query (identity.role ∷ []) log).1 a e

  pub role_statement-Sends :
      (role : Text) (identity : RuntimeIdentity) (exists : Bool)
      → Sends (role_statement S role identity exists) []
  role_statement-Sends role identity false = finish-Sends (create_role role identity.password)
  role_statement-Sends role identity true =
      quiet-Sends _ _ _ (ask_count-Sends S other_grants_query (identity.role ∷ [])) (λ n.
        quiet-Sends _ _ _ (stop_if-Sends (not (n == 0)) assigned_error)
          (λ _. finish-Sends (alter_role role identity.password)))

  pub unscripted-Sends : (a : Statement) → is_scripted a ≡ false → Sends (execute S a) []
  unscripted-Sends a e log = rw e at (execute-Sends S a log)

  pub provision_role-Sends :
      (identity : RuntimeIdentity) → IsQuotable identity → Sends (provision_role S identity) []
  unfolding provision_role
  provision_role-Sends identity q =
      quiet-Sends _ _ _ (ask_bool-Sends S exists_query (identity.role ∷ [])) (λ exists.
        expect-Sends identity _ _ q (λ log.
          resume-Sent log [] [] _ _ (role_statement-Sends (quote identity.role) identity exists log)
            (λ a e.
              unscripted-Sends a
                (role_statement-Returns (quote identity.role) identity exists log a e))))

  pub grant_database_connect-Sends :
      (identity : RuntimeIdentity)
      → IsQuotable identity
      → Sends (grant_database_connect S identity.role) []
  unfolding grant_database_connect
  grant_database_connect-Sends identity q =
      quiet-Sends _ _ _ (ask_text-Sends S database_query []) (λ database.
        expect-Sends identity _ _ q
          (unscripted-Sends (grant_connect database (quote identity.role)) refl))

  pub revoke_database_public_connect-Sends : Sends (revoke_database_public_connect S) []
  unfolding revoke_database_public_connect
  revoke_database_public_connect-Sends =
      quiet-Sends _ _ _ (ask_text-Sends S database_query [])
        (λ database. unscripted-Sends (revoke_public_connect database) refl)

  pub ensure_role_is_scoped-Sends :
      (role schema : Text) → Sends (ensure_role_is_scoped S role schema) []
  unfolding ensure_role_is_scoped
  ensure_role_is_scoped-Sends role schema =
      quiet-Sends _ _ _ (ask_bool-Sends S privileged_query _) (λ privileged.
        quiet-Sends _ _ _ (ask_count-Sends S memberships_query _) (λ memberships.
          quiet-Sends _ _ _ (ask_count-Sends S other_schemas_query _) (λ other_schemas.
            quiet-Sends _ _ _ (ask_bool-Sends S database_create_query _)
              (λ database_create. stop_if-Sends _ privileges_error))))

  -- A part for an identity that is there.
  pub when_quiet-Sends :
      (o : Option RuntimeIdentity) (rest : RuntimeIdentity → Session (Unit {0}))
      → ForSome o IsQuotable
      → ((a : RuntimeIdentity) → IsQuotable a → Sends (rest a) [])
      → Sends (when_some o rest) []
  when_quiet-Sends none rest p sends = finish-Sends tt
  when_quiet-Sends (some a) rest p sends = sends a p

  pub when_any-Sends :
      (o : Option RuntimeIdentity) (rest : RuntimeIdentity → Session (Unit {0}))
      → ((a : RuntimeIdentity) → Sends (rest a) [])
      → Sends (when_some o rest) []
  when_any-Sends none rest sends = finish-Sends tt
  when_any-Sends (some a) rest sends = sends a
