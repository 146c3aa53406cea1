-- ===== src/Database/Scripted.antt =====
-- `migrate_installation` of core/src/database.rs sends the scripted statements, in order.
use better_commerce.Prelude.{◌≡◌, refl, Bool, Option, Text, List, [], ◌∷◌, ◌++◌, ok, ℕ}
use mathlib.Core.List.{append-nil}
use better_commerce.Database.Types.{RuntimeIdentity, Identities, Urls}
use better_commerce.Database.Sql.{
  revoke_public_schema, create_schema, set_search_path, grant_usage, grant_shared_history,
  grant_tables, grant_sequences, revoke_history, default_tables, default_sequences, revoke_tables,
  grant_outbox, revoke_sequences,
}
use better_commerce.Database.Session.{Server, Session, when_some, close, ◌>>◌, connect}
use better_commerce.Database.Migrate.{
  example_schema, shared_schema, provision_roles, limit_connections, migrate_shared,
  migrate_example, limit_dispatcher, ensure_scoped, provision, migrate_installation,
}
use better_commerce.Database.Sent.{
  Sends, bind-Sends, quiet-Sends, execute-Sends, migrate-Sends, close-Sends, script-Sends, Sent,
  connect-Sends,
}
use better_commerce.Database.Identity.{check_identities}
use better_commerce.Database.Checked.{AreChecked, check_identities-AreChecked}
use better_commerce.Database.Script.{
  quote, for_some, IsQuotable, AreQuotable, script, shared_script, example_script,
  dispatcher_script,
}
use better_commerce.Database.Parts.{
  when_any-Sends, refuse_removal-Sends, provision_role-Sends, grant_database_connect-Sends,
  revoke_database_public_connect-Sends, ensure_role_is_scoped-Sends, when_quiet-Sends,
  when_some-Sends, for-Sends, for_last-Sends, expect-Sends,
}

module _ (S : Server) where
  pub provision_roles-Sends :
      (ids : Identities) → AreQuotable ids → Sends (provision_roles S ids) []
  unfolding provision_roles
  provision_roles-Sends ids q = quiet-Sends _ _ _ (provision_role-Sends S ids.ready q.ready) (λ _.
      quiet-Sends _ _ _ (when_quiet-Sends S ids.example _ q.example (provision_role-Sends S))
        (λ _. when_quiet-Sends S ids.dispatcher _ q.dispatcher (provision_role-Sends S)))

  pub limit_connections-Sends :
      (ids : Identities)
      → AreQuotable ids
      → Sends (limit_connections S ids) (revoke_public_schema ∷ [])
  unfolding limit_connections
  limit_connections-Sends ids q = quiet-Sends _ _ _ (revoke_database_public_connect-Sends S) (λ _.
      script-Sends S revoke_public_schema _ [] refl (
        quiet-Sends _ _ _ (grant_database_connect-Sends S ids.ready q.ready) (λ _.
          quiet-Sends _ _ _
            (when_quiet-Sends S ids.example _ q.example (grant_database_connect-Sends S))
            (λ _.
              when_quiet-Sends S ids.dispatcher _ q.dispatcher (grant_database_connect-Sends S)))))

  pub migrate_shared-Sends :
      (ready : RuntimeIdentity)
      → IsQuotable ready
      → Sends (migrate_shared S ready) (shared_script ready)
  unfolding migrate_shared
  migrate_shared-Sends ready q = script-Sends S (create_schema shared_schema) _ _ refl (
      script-Sends S (set_search_path shared_schema) _ _ refl (
        quiet-Sends _ _ _ (migrate-Sends S shared_schema) (λ _.
          for-Sends S ready (grant_usage shared_schema) _ _ q refl
            (for_last-Sends S ready grant_shared_history q refl))))

  pub migrate_example-Sends :
      (e : RuntimeIdentity) → IsQuotable e → Sends (migrate_example S e) (example_script e)
  unfolding migrate_example
  migrate_example-Sends e q = script-Sends S (create_schema example_schema) _ _ refl (
      script-Sends S (set_search_path example_schema) _ _ refl (
        quiet-Sends _ _ _ (migrate-Sends S example_schema) (λ _.
          for-Sends S e (grant_usage example_schema) _ _ q refl (
            for-Sends S e grant_tables _ _ q refl (
              for-Sends S e grant_sequences _ _ q refl (
                for-Sends S e revoke_history _ _ q refl (
                  for-Sends S e default_tables _ _ q refl
                    (for_last-Sends S e default_sequences q refl))))))))

  pub limit_dispatcher-Sends :
      (d : RuntimeIdentity) → IsQuotable d → Sends (limit_dispatcher S d) (dispatcher_script d)
  unfolding limit_dispatcher
  limit_dispatcher-Sends d q = expect-Sends S d _ _ q (
      script-Sends S (grant_usage example_schema (quote d.role)) _ _ refl (
        script-Sends S (revoke_tables (quote d.role)) _ _ refl (
          script-Sends S (grant_outbox (quote d.role)) _ _ refl
            (execute-Sends S (revoke_sequences (quote d.role))))))

  ensure_scoped-Sends : (ids : Identities) → Sends (ensure_scoped S ids) []
  unfolding ensure_scoped
  ensure_scoped-Sends ids =
      quiet-Sends _ _ _ (ensure_role_is_scoped-Sends S ids.ready.role shared_schema) (λ _.
        quiet-Sends _ _ _
          (when_any-Sends S ids.example _
            (λ e. ensure_role_is_scoped-Sends S e.role example_schema))
          (λ _.
            when_any-Sends S ids.dispatcher _
              (λ d. ensure_role_is_scoped-Sends S d.role example_schema)))

  abbrev ending : Identities → Session (Unit {0})
  ending ids = do ensure_scoped S ids; close S

  ending-Sends : (ids : Identities) → Sends (ending ids) []
  ending-Sends ids = quiet-Sends _ _ _ (ensure_scoped-Sends ids) (λ _. close-Sends S)

  -- The last parts, for whatever identities are there.
  example_on-Sends :
      (ids : Identities)
      → AreQuotable ids
      → Sends
          (when_some ids.example (migrate_example S)
            >> (when_some ids.dispatcher (limit_dispatcher S) >> ending ids))
          (for_some ids.example example_script ++ for_some ids.dispatcher dispatcher_script)
  example_on-Sends ids q =
      bind-Sends _ _ _ _
        (when_some-Sends S ids.example _ example_script IsQuotable q.example migrate_example-Sends)
        (λ _. rw⁻¹ (append-nil (for_some ids.dispatcher dispatcher_script)) (
          bind-Sends _ _ _ _
            (when_some-Sends S ids.dispatcher _ dispatcher_script IsQuotable q.dispatcher
              limit_dispatcher-Sends)
            (λ _. ending-Sends ids)))

  pub provision-Sends :
      (enabled : Bool) (ids : Identities)
      → AreQuotable ids
      → Sends (provision S enabled ids) (script ids)
  unfolding provision
  provision-Sends enabled ids q = quiet-Sends _ _ _ (refuse_removal-Sends S enabled) (λ _.
      quiet-Sends _ _ _ (provision_roles-Sends ids q) (λ _.
        bind-Sends _ _ (revoke_public_schema ∷ []) _ (limit_connections-Sends ids q) (λ _.
          bind-Sends _ _ (shared_script ids.ready) _ (migrate_shared-Sends ids.ready q.ready)
            (λ _. example_on-Sends ids q))))

-- The session of an installation whose identities pass the checks sends the script or a beginning
-- of it, and all of it if it returns; it ends with a result or an error.
pub migrate_installation-Sent :
    (S : Server) (U : Urls) (sha256 : List ℕ → List ℕ) (operations_url : Text) (enabled : Bool)
    (example_url dispatcher_url : Option Text) (readiness_url : Text) (ids : Identities)
    → check_identities U sha256 operations_url enabled example_url dispatcher_url readiness_url
      ≡ ok ids
    → Sent [] (script ids) (
        migrate_installation S U sha256 operations_url enabled example_url dispatcher_url
          readiness_url [])
unfolding migrate_installation
migrate_installation-Sent S U sha256 operations_url enabled example_url dispatcher_url readiness_url
      ids h =
    let c : AreChecked ids =
      check_identities-AreChecked U sha256 operations_url enabled example_url dispatcher_url
        readiness_url h in
    rw h (
      quiet-Sends (connect S operations_url) (λ _. provision S enabled ids) (script ids)
        (connect-Sends S operations_url) (λ _. provision-Sends S enabled ids c.quotable) [])
