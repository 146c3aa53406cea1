-- ===== src/Database/Sql.antt =====
-- The statements of core/src/database.rs, as data and as the text that it sends. A role stands in
-- a statement as `quoted_role` writes it.
use better_commerce.Prelude.{ℕ, Text, text, [], ◌∷◌, ◌++◌, ◌==◌, if◌then◌else◌}

pub data Statement : Type 0 where
  alter_role create_role : (role password : Text) → Statement
  revoke_public_schema : Statement
  revoke_public_connect : (database : Text) → Statement
  grant_connect : (database role : Text) → Statement
  create_schema : (schema : Text) → Statement
  set_search_path : (schema : Text) → Statement
  grant_usage : (schema role : Text) → Statement
  grant_shared_history : (role : Text) → Statement
  grant_tables : (role : Text) → Statement
  grant_sequences : (role : Text) → Statement
  revoke_history : (role : Text) → Statement
  default_tables : (role : Text) → Statement
  default_sequences : (role : Text) → Statement
  revoke_tables : (role : Text) → Statement
  grant_outbox : (role : Text) → Statement
  revoke_sequences : (role : Text) → Statement

-- `str::replace` of a character by two of it.
unfoldable pub doubled : ℕ → Text → Text
doubled q [] = []
doubled q (c ∷ s) = let rest = doubled q s in if c == q then c ∷ c ∷ rest else c ∷ rest

abbrev pub password_literal : Text → Text
password_literal password = text "'" ++ (doubled 0x27 password ++ text "'")

abbrev pub database_identifier : Text → Text
database_identifier name = text "\"" ++ (doubled 0x22 name ++ text "\"")

unfoldable pub sql_text : Statement → Text
sql_text (alter_role role password) =
    text "ALTER ROLE " ++ (role ++ (text " PASSWORD " ++ password_literal password))
sql_text (create_role role password) =
    text "CREATE ROLE "
    ++ (role ++ (text " LOGIN NOINHERIT PASSWORD " ++ password_literal password))
sql_text revoke_public_schema = text "REVOKE ALL ON SCHEMA public FROM PUBLIC"
sql_text (revoke_public_connect database) =
    text "REVOKE CONNECT ON DATABASE " ++ (database_identifier database ++ text " FROM PUBLIC")
sql_text (grant_connect database role) =
    text "GRANT CONNECT ON DATABASE " ++ (database_identifier database ++ (text " TO " ++ role))
sql_text (create_schema schema) = text "CREATE SCHEMA IF NOT EXISTS " ++ schema
sql_text (set_search_path schema) = text "SET search_path TO " ++ (schema ++ text ", pg_catalog")
sql_text (grant_usage schema role) =
    text "GRANT USAGE ON SCHEMA " ++ (schema ++ (text " TO " ++ role))
sql_text (grant_shared_history role) =
    text "GRANT SELECT ON TABLE bc_shared._sqlx_migrations TO " ++ role
sql_text (grant_tables role) =
    text "GRANT SELECT, INSERT, UPDATE, DELETE ON ALL TABLES IN SCHEMA bc_example TO " ++ role
sql_text (grant_sequences role) =
    text "GRANT USAGE ON ALL SEQUENCES IN SCHEMA bc_example TO " ++ role
sql_text (revoke_history role) =
    text "REVOKE INSERT, UPDATE, DELETE ON TABLE bc_example._sqlx_migrations FROM " ++ role
sql_text (default_tables role) =
    text
      "ALTER DEFAULT PRIVILEGES IN SCHEMA bc_example GRANT SELECT, INSERT, UPDATE, DELETE ON TABLES TO "
    ++ role
sql_text (default_sequences role) =
    text "ALTER DEFAULT PRIVILEGES IN SCHEMA bc_example GRANT USAGE ON SEQUENCES TO " ++ role
sql_text (revoke_tables role) =
    text "REVOKE ALL PRIVILEGES ON ALL TABLES IN SCHEMA bc_example FROM " ++ role
sql_text (grant_outbox role) =
    text "GRANT SELECT, UPDATE ON TABLE bc_example.outbox_events TO " ++ role
sql_text (revoke_sequences role) =
    text "REVOKE ALL PRIVILEGES ON ALL SEQUENCES IN SCHEMA bc_example FROM " ++ role
