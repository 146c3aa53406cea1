-- ===== src/Database/Provision.antt =====
-- The helpers of `migrate_installation` in core/src/database.rs that talk to the server.
use better_commerce.Prelude.{Bool, true, false, not, ◌||◌, Text, text, [], ◌∷◌, ◌++◌, ◌==◌}
use better_commerce.Database.Types.{DatabaseError, refused, RuntimeIdentity}
use better_commerce.Database.Roles.{quoted_role}
use better_commerce.Database.Sql.{
  Statement, alter_role, create_role, revoke_public_connect, grant_connect,
}
use better_commerce.Database.Session.{
  Server, Session, finish, stop, expect, ask_bool, ask_count, ask_text, execute, ◌>>=◌, ◌>>◌,
}

abbrev pub assigned_error : DatabaseError
assigned_error = refused (text "runtime role is already assigned to another installation database")

abbrev pub privileges_error : DatabaseError
privileges_error = refused (text "runtime database role has privileges outside its scoped schema")

abbrev pub exists_query : Text
exists_query = text "SELECT EXISTS (SELECT 1 FROM pg_roles WHERE rolname = $1)"

abbrev pub other_grants_query : Text
other_grants_query =
    text
      "SELECT count(*) FROM pg_database AS database LEFT JOIN LATERAL aclexplode(database.datacl) AS grant_entry ON true WHERE database.datname <> current_database() AND (database.datdba = (SELECT oid FROM pg_roles WHERE rolname = $1) OR (grant_entry.grantee = (SELECT oid FROM pg_roles WHERE rolname = $1) AND grant_entry.privilege_type = 'CONNECT'))"

abbrev pub database_query : Text
database_query = text "SELECT current_database()"

abbrev pub privileged_query : Text
privileged_query =
    text
      "SELECT NOT rolcanlogin OR rolsuper OR rolcreatedb OR rolcreaterole OR rolreplication OR rolbypassrls OR rolinherit FROM pg_roles WHERE rolname = $1"

abbrev pub memberships_query : Text
memberships_query =
    text
      "SELECT count(*) FROM pg_auth_members WHERE member = (SELECT oid FROM pg_roles WHERE rolname = $1)"

abbrev pub other_schemas_query : Text
other_schemas_query =
    text
      "SELECT count(*) FROM pg_namespace WHERE nspname <> $2 AND nspname NOT LIKE 'pg_%' AND nspname <> 'information_schema' AND (has_schema_privilege($1, oid, 'USAGE') OR has_schema_privilege($1, oid, 'CREATE'))"

abbrev pub database_create_query : Text
database_create_query = text "SELECT has_database_privilege($1, current_database(), 'CREATE')"

abbrev pub history_query : Text
history_query = text "SELECT to_regclass($1) IS NOT NULL"

abbrev pub applied_query : Text → Text
applied_query schema =
    text "SELECT EXISTS (SELECT 1 FROM " ++ (schema ++ text "._sqlx_migrations WHERE success)")

-- `if test { return Err(..) }`.
abbrev pub stop_if : Bool → DatabaseError → Session (Unit {0})
stop_if true e = stop e
stop_if false e = finish tt

module _ (S : Server) where
  abbrev pub history_is_applied : Text → Bool → Session Bool
  history_is_applied schema false = finish false
  history_is_applied schema true = ask_bool S (applied_query schema) []

  unfoldable pub module_is_initialized : Text → Session Bool
  module_is_initialized schema = do
    history_exists ← ask_bool S history_query ((schema ++ text "._sqlx_migrations") ∷ [])
    history_is_applied schema history_exists

  -- The two branches of `provision_role`.
  abbrev pub role_statement : Text → RuntimeIdentity → Bool → Session Statement
  role_statement role identity false = finish (create_role role identity.password)
  role_statement role identity true = do
    other_installation_grants ← ask_count S other_grants_query (identity.role ∷ [])
    stop_if (not (other_installation_grants == 0)) assigned_error
    finish (alter_role role identity.password)

  unfoldable pub provision_role : RuntimeIdentity → Session (Unit {0})
  provision_role identity = do
    exists ← ask_bool S exists_query (identity.role ∷ [])
    role ← expect (quoted_role identity.role)
    statement ← role_statement role identity exists
    execute S statement

  unfoldable pub grant_database_connect : Text → Session (Unit {0})
  grant_database_connect role = do
    database ← ask_text S database_query []
    quoted ← expect (quoted_role role)
    execute S (grant_connect database quoted)

  unfoldable pub revoke_database_public_connect : Session (Unit {0})
  revoke_database_public_connect = do
    database ← ask_text S database_query []
    execute S (revoke_public_connect database)

  unfoldable pub ensure_role_is_scoped : Text → Text → Session (Unit {0})
  ensure_role_is_scoped role schema = do
    privileged ← ask_bool S privileged_query (role ∷ [])
    memberships ← ask_count S memberships_query (role ∷ [])
    other_schemas ← ask_count S other_schemas_query (role ∷ schema ∷ [])
    database_create ← ask_bool S database_create_query (role ∷ [])
    stop_if
        (privileged || (not (memberships == 0) || (not (other_schemas == 0) || database_create)))
        privileges_error
