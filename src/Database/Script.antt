-- ===== src/Database/Script.antt =====
-- The schema statements of `migrate_installation` in core/src/database.rs, listed.
use better_commerce.Prelude.{◌≡◌, Option, none, some, Text, text, List, [], ◌∷◌, ◌++◌, ok}
use better_commerce.Database.Types.{RuntimeIdentity, Identities}
use better_commerce.Database.Roles.{quoted_role}
use better_commerce.Database.Sql.{
  Statement, revoke_public_schema, create_schema, set_search_path, grant_usage,
  grant_shared_history, grant_tables, grant_sequences, revoke_history, default_tables,
  default_sequences, revoke_tables, grant_outbox, revoke_sequences,
}
use better_commerce.Database.Migrate.{example_schema, shared_schema}

abbrev pub quote : Text → Text
quote role = text "\"" ++ (role ++ text "\"")

abbrev pub for_some : {A B : Type 0} → Option A → (A → List B) → List B
for_some none f = []
for_some (some a) f = f a

abbrev pub shared_script : RuntimeIdentity → List Statement
shared_script ready =
    create_schema shared_schema
    ∷ set_search_path shared_schema
    ∷ grant_usage shared_schema (quote ready.role)
    ∷ grant_shared_history (quote ready.role)
    ∷ []

abbrev pub example_script : RuntimeIdentity → List Statement
example_script identity =
    create_schema example_schema
    ∷ set_search_path example_schema
    ∷ grant_usage example_schema (quote identity.role)
    ∷ grant_tables (quote identity.role)
    ∷ grant_sequences (quote identity.role)
    ∷ revoke_history (quote identity.role)
    ∷ default_tables (quote identity.role)
    ∷ default_sequences (quote identity.role)
    ∷ []

abbrev pub dispatcher_script : RuntimeIdentity → List Statement
dispatcher_script identity =
    grant_usage example_schema (quote identity.role)
    ∷ revoke_tables (quote identity.role)
    ∷ grant_outbox (quote identity.role)
    ∷ revoke_sequences (quote identity.role)
    ∷ []

abbrev pub script : Identities → List Statement
script ids =
    revoke_public_schema
    ∷ (shared_script ids.ready
        ++ (for_some ids.example example_script ++ for_some ids.dispatcher dispatcher_script))

-- `quoted_role` accepts the role.
abbrev pub IsQuotable : RuntimeIdentity → Type 0
IsQuotable identity = quoted_role identity.role ≡ ok (quote identity.role)

abbrev pub ForSome : {A : Type 0} → Option A → (A → Type 0) → Type 0
ForSome none P = Unit {0}
ForSome (some a) P = P a

pub record AreQuotable (ids : Identities) : Type 0 where
  pub example : ForSome ids.example IsQuotable
  pub dispatcher : ForSome ids.dispatcher IsQuotable
  pub ready : IsQuotable ids.ready
