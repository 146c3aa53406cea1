-- ===== src/Database/Migrate.antt =====
-- `migrate_installation` of core/src/database.rs.
use better_commerce.Prelude.{ℕ, Bool, true, false, Option, Text, text, List, Result, ok, err}
use better_commerce.Database.Types.{DatabaseError, refused, Urls, RuntimeIdentity, Identities}
use better_commerce.Database.Roles.{quoted_role}
use better_commerce.Database.Identity.{check_identities}
use better_commerce.Database.Sql.{
  Statement, revoke_public_schema, create_schema, set_search_path, grant_usage,
  grant_shared_history, grant_tables, grant_sequences, revoke_history, default_tables,
  default_sequences, revoke_tables, grant_outbox, revoke_sequences,
}
use better_commerce.Database.Session.{
  Server, Session, finish, stop, expect, when_some, connect, execute, migrate, close, ◌>>=◌, ◌>>◌,
}
use better_commerce.Database.Provision.{
  stop_if, module_is_initialized, provision_role, grant_database_connect,
  revoke_database_public_connect, ensure_role_is_scoped,
}

-- `SCHEMA` of modules/example/src/database.rs, and `SHARED_SCHEMA`.
abbrev pub example_schema : Text
example_schema = text "bc_example"

abbrev pub shared_schema : Text
shared_schema = text "bc_shared"

abbrev pub removal_error : DatabaseError
removal_error = refused (text "initialized module 'example' cannot be removed in M0")

module _ (S : Server) where
  -- `quoted_role` of an identity, in a statement that is executed.
  abbrev pub execute_for : RuntimeIdentity → (Text → Statement) → Session (Unit {0})
  execute_for identity statement =
      expect (quoted_role identity.role) >>= λ role. execute S (statement role)

  -- A disabled module must not be initialized.
  abbrev pub refuse_removal : Bool → Session (Unit {0})
  refuse_removal true = finish tt
  refuse_removal false = do
    initialized ← module_is_initialized S example_schema
    stop_if initialized removal_error

  unfoldable pub provision_roles : Identities → Session (Unit {0})
  provision_roles ids = do
    provision_role S ids.ready
    when_some ids.example (provision_role S)
    when_some ids.dispatcher (provision_role S)

  unfoldable pub limit_connections : Identities → Session (Unit {0})
  limit_connections ids = do
    revoke_database_public_connect S
    execute S revoke_public_schema
    grant_database_connect S ids.ready.role
    when_some ids.example (λ identity. grant_database_connect S identity.role)
    when_some ids.dispatcher (λ identity. grant_database_connect S identity.role)

  unfoldable pub migrate_shared : RuntimeIdentity → Session (Unit {0})
  migrate_shared ready = do
    execute S (create_schema shared_schema)
    execute S (set_search_path shared_schema)
    migrate S shared_schema
    execute_for ready (grant_usage shared_schema)
    execute_for ready grant_shared_history

  unfoldable pub migrate_example : RuntimeIdentity → Session (Unit {0})
  migrate_example identity = do
    execute S (create_schema example_schema)
    execute S (set_search_path example_schema)
    migrate S example_schema
    execute_for identity (grant_usage example_schema)
    execute_for identity grant_tables
    execute_for identity grant_sequences
    execute_for identity revoke_history
    execute_for identity default_tables
    execute_for identity default_sequences

  -- The statements of the dispatcher share one quoted role.
  unfoldable pub limit_dispatcher : RuntimeIdentity → Session (Unit {0})
  limit_dispatcher identity = do
    role ← expect (quoted_role identity.role)
    execute S (grant_usage example_schema role)
    execute S (revoke_tables role)
    execute S (grant_outbox role)
    execute S (revoke_sequences role)

  unfoldable pub ensure_scoped : Identities → Session (Unit {0})
  ensure_scoped ids = do
    ensure_role_is_scoped S ids.ready.role shared_schema
    when_some ids.example (λ identity. ensure_role_is_scoped S identity.role example_schema)
    when_some ids.dispatcher (λ identity. ensure_role_is_scoped S identity.role example_schema)

  -- The statements from the check of removals on.
  unfoldable pub provision : Bool → Identities → Session (Unit {0})
  provision example_enabled ids = do
    refuse_removal example_enabled
    provision_roles ids
    limit_connections ids
    migrate_shared ids.ready
    when_some ids.example migrate_example
    when_some ids.dispatcher limit_dispatcher
    ensure_scoped ids
    close S

  abbrev pub migrate_checked : Text → Bool → Result DatabaseError Identities → Session (Unit {0})
  migrate_checked operations_url example_enabled (err e) = stop e
  migrate_checked operations_url example_enabled (ok ids) = do
    connect S operations_url
    provision example_enabled ids

  module _ (U : Urls) (sha256 : List ℕ → List ℕ) where
    unfoldable pub migrate_installation :
        Text → Bool → Option Text → Option Text → Text → Session (Unit {0})
    migrate_installation operations_url example_enabled example_url dispatcher_url readiness_url =
        migrate_checked operations_url example_enabled (
          check_identities U sha256 operations_url example_enabled example_url dispatcher_url
            readiness_url)
