-- ===== src/Database/Tests.antt =====
-- The theorems of core/src/database.rs at a sample installation.
use better_commerce.Prelude.{
  ◌↔◌, ◌⊎◌, Bool, true, false, not, ◌&&◌, ◌||◌, ◌≡◌, ◌≢◌, refl, some, none, Text, text, [], ◌∷◌, ok,
  Outcome, returns, text_eq, bytes,
}
use better_commerce.Prelude.Strings.{encode_utf8}
use better_commerce.Prelude.Formats.{hex_byte, hex_bytes}
use better_commerce.Prelude.Chars.{all, take, trim_start_matches}
use better_commerce.Database.Types.{DatabaseError}
use better_commerce.Database.Roles.{scoped_role_names, quoted_role}
use better_commerce.Database.Identifiers.{HasBytes, IsIdentifier, scoped_role_names-IsIdentifier}
use better_commerce.Database.Identity.{
  same_target, parse_identity, enabled_identity, any_shares, any_pair_shares, check_identities,
}
use better_commerce.Database.Sql.{
  Statement, alter_role, create_role, revoke_public_connect, grant_connect, sql_text,
}
use better_commerce.Database.Session.{
  Log, opened, connect, ask_bool, ask_count, ask_text, execute, migrate, close,
}
use better_commerce.Database.Provision.{
  module_is_initialized, provision_role, grant_database_connect, revoke_database_public_connect,
  ensure_role_is_scoped,
}
use better_commerce.Database.Migrate.{
  example_schema, provision, provision_roles, limit_connections, migrate_shared, migrate_example,
  limit_dispatcher, ensure_scoped, migrate_installation,
}
use better_commerce.Database.Sent.{Sent, scripted, is_return}
use better_commerce.Database.Script.{quote, script}
use better_commerce.Database.Scripted.{migrate_installation-Sent}
use better_commerce.Database.Asked.{AreScoped}
use better_commerce.Database.Scoped.{migrate_installation-AreScoped}
use better_commerce.Database.Removal.{only_reads, migrate_installation-only_reads}
use better_commerce.Database.Reading.{read, parts_of, sql_text-read}
use better_commerce.Database.Privileges.{
  Acl, update, is_outbox_privilege, is_row_privilege, is_write, privileges_of,
  privileges_of-migrate_installation,
}
use better_commerce.Database.Checked.{IsIdentity, parse_identity-IsIdentity_iff}
use better_commerce.Database.Samples.{
  urls, server, sha256, operations_url, example_identity, dispatcher_identity, ready_identity,
  identities,
}

bytes_only : HasBytes sha256
unfolding all
bytes_only = λ s. refl

scoped_role_names-IsIdentifier_example :
    let (example, dispatcher, readiness) = scoped_role_names sha256 (text "bc_demo") in
    (IsIdentifier example × IsIdentifier dispatcher × IsIdentifier readiness)
    × ((example ≢ dispatcher) × (example ≢ readiness) × (dispatcher ≢ readiness))
scoped_role_names-IsIdentifier_example =
    scoped_role_names-IsIdentifier sha256 bytes_only (text "bc_demo")

checked_sample :
    check_identities urls sha256 operations_url true
      (some example_identity.role)
      (some dispatcher_identity.role)
      ready_identity.role
    ≡ ok identities
unfolding check_identities enabled_identity parse_identity same_target any_pair_shares any_shares
    text_eq quoted_role all bytes encode_utf8 scoped_role_names trim_start_matches take hex_bytes
    hex_byte
checked_sample = refl

parse_identity-IsIdentity_iff_example :
    (parse_identity urls example_identity.role operations_url example_identity.role
      ≡ ok example_identity)
    ↔ IsIdentity urls example_identity.role operations_url example_identity.role example_identity
parse_identity-IsIdentity_iff_example =
    parse_identity-IsIdentity_iff urls example_identity.role operations_url example_identity.role
      example_identity

-- The session of the sample.
abbrev installed : Outcome DatabaseError (Unit {0}) × Log
installed =
    migrate_installation server urls sha256 operations_url true (some example_identity.role)
      (some dispatcher_identity.role) ready_identity.role []

pub installed-returns : installed.0 ≡ returns tt
unfolding migrate_installation provision connect provision_roles limit_connections migrate_shared
    migrate_example limit_dispatcher ensure_scoped module_is_initialized provision_role
    grant_database_connect revoke_database_public_connect ensure_role_is_scoped ask_bool ask_count
    ask_text execute migrate close quoted_role all bytes encode_utf8
installed-returns = rw checked_sample refl

migrate_installation-Sent_example : Sent [] (script identities) installed
migrate_installation-Sent_example =
    migrate_installation-Sent server urls sha256 operations_url true (some example_identity.role)
      (some dispatcher_identity.role) ready_identity.role identities checked_sample

migrate_installation-AreScoped_example : AreScoped server identities installed.1
migrate_installation-AreScoped_example =
    migrate_installation-AreScoped server urls sha256 operations_url true
      (some example_identity.role) (some dispatcher_identity.role) ready_identity.role identities
      checked_sample installed-returns

abbrev any_table : Text → Bool
any_table t = true

abbrev acl : Acl
acl role t p = true

abbrev after : Acl
after = privileges_of any_table (scripted installed.1) acl

privileges_of-migrate_installation_example :
    (after (quote dispatcher_identity.role) (text "records") update
      ≡ (text_eq (text "records") (text "outbox_events") && is_outbox_privilege update))
    × ((after (quote example_identity.role) (text "records") update ≡ (
          (acl (quote example_identity.role) (text "records") update || is_row_privilege update)
          && not (text_eq (text "records") (text "_sqlx_migrations") && is_write update)))
        × (after (quote ready_identity.role) (text "records") update
            ≡ acl (quote ready_identity.role) (text "records") update))
privileges_of-migrate_installation_example =
    privileges_of-migrate_installation server urls sha256 operations_url
      (some example_identity.role) (some dispatcher_identity.role) ready_identity.role
      ready_identity example_identity dispatcher_identity any_table acl (text "records") update
      checked_sample installed-returns refl

-- Without the example module.
abbrev without_example : Outcome DatabaseError (Unit {0}) × Log
without_example =
    migrate_installation server urls sha256 operations_url false none none ready_identity.role []

migrate_installation-only_reads_example :
    ((module_is_initialized server example_schema (opened operations_url ∷ [])).0 ≡ returns false)
    ⊎ ((is_return without_example.0 ≡ false) × (only_reads without_example.1 ≡ true))
migrate_installation-only_reads_example =
    migrate_installation-only_reads server urls sha256 operations_url none none ready_identity.role

quotable_sample : quoted_role ready_identity.role ≡ ok (quote ready_identity.role)
unfolding quoted_role all bytes encode_utf8
quotable_sample = refl

abbrev alter : Statement
alter = alter_role (quote ready_identity.role) (text "it's")

abbrev create : Statement
create = create_role (quote ready_identity.role) (text "it's")

abbrev revoke : Statement
revoke = revoke_public_connect (text "bc_\"demo")

abbrev grant : Statement
grant = grant_connect (text "bc_\"demo") (quote ready_identity.role)

sql_text-read_example :
    ((read (parts_of alter) (sql_text alter) ≡ some (ready_identity.role ∷ text "it's" ∷ []))
      × (read (parts_of create) (sql_text create) ≡ some (ready_identity.role ∷ text "it's" ∷ [])))
    × ((read (parts_of revoke) (sql_text revoke) ≡ some (text "bc_\"demo" ∷ []))
        × (read (parts_of grant) (sql_text grant)
            ≡ some (text "bc_\"demo" ∷ ready_identity.role ∷ [])))
sql_text-read_example =
    sql_text-read ready_identity.role (text "it's") (text "bc_\"demo") quotable_sample
