-- ===== src/Database/Privileges.antt =====
-- What the scripted statements of core/src/database.rs do to the privileges on the tables of the
-- schema `bc_example`, as PostgreSQL documents GRANT and REVOKE.
use better_commerce.Prelude.{
  ℕ, ◌≡◌, refl, Bool, true, false, not, ◌&&◌, ◌||◌, Option, some, Text, text, List, [], ◌∷◌, ◌++◌,
  text_eq, text_eq_refl, text_eq_comm, arith, returns, ok, Bool-cases, inl, inr,
}
use better_commerce.Database.Types.{Urls, RuntimeIdentity}
use better_commerce.Database.Identity.{check_identities, any_pair_shares, any_shares}
use better_commerce.Database.Sql.{
  Statement, grant_tables, revoke_history, revoke_tables, grant_outbox,
}
use better_commerce.Database.Session.{Server}
use better_commerce.Database.Migrate.{migrate_installation}
use better_commerce.Database.Sent.{scripted, Sent-scripted}
use better_commerce.Database.Script.{quote, script}
use better_commerce.Database.Scripted.{migrate_installation-Sent}
use better_commerce.Database.Checked.{check_identities-AreChecked}

-- `other` stands for TRUNCATE, REFERENCES, TRIGGER and the rest.
pub data Privilege : Type 0 where
  select insert update delete other : Privilege

-- Whether a role, written as in a statement, holds a privilege on a table of `bc_example`.
abbrev pub Acl : Type 0
Acl = Text → Text → Privilege → Bool

abbrev pub is_row_privilege : Privilege → Bool
is_row_privilege other = false
is_row_privilege _ = true

abbrev pub is_write : Privilege → Bool
is_write insert = true
is_write update = true
is_write delete = true
is_write _ = false

abbrev pub is_outbox_privilege : Privilege → Bool
is_outbox_privilege select = true
is_outbox_privilege update = true
is_outbox_privilege _ = false

-- `exists` says which tables the schema has when the statement runs.
unfoldable pub privileges_after : (Text → Bool) → Statement → Acl → Acl
privileges_after exists (grant_tables role) acl r t p =
    acl r t p || (text_eq r role && (exists t && is_row_privilege p))
privileges_after exists (revoke_history role) acl r t p =
    acl r t p && not (text_eq r role && (text_eq t (text "_sqlx_migrations") && is_write p))
privileges_after exists (revoke_tables role) acl r t p =
    acl r t p && not (text_eq r role && exists t)
privileges_after exists (grant_outbox role) acl r t p =
    acl r t p || (text_eq r role && (text_eq t (text "outbox_events") && is_outbox_privilege p))
privileges_after exists _ acl r t p = acl r t p

unfoldable pub privileges_of : (Text → Bool) → List Statement → Acl → Acl
privileges_of exists [] acl = acl
privileges_of exists (statement ∷ rest) acl =
    privileges_of exists rest (privileges_after exists statement acl)

snoc-text_eq :
    (c : ℕ) (a b : Text) → text_eq (a ++ c ∷ []) (b ++ c ∷ []) ≡ true → text_eq a b ≡ true
unfolding text_eq
snoc-text_eq c [] [] h = refl
snoc-text_eq c [] (d ∷ []) h = ground arith
snoc-text_eq c [] (d ∷ e ∷ b) h = ground arith
snoc-text_eq c (d ∷ []) [] h = ground arith
snoc-text_eq c (d ∷ e ∷ a) [] h = ground arith
snoc-text_eq c (d ∷ a) (e ∷ b) h = ground (arith, snoc-text_eq c a b)

-- Roles that differ are written differently.
quote-text_eq : (a b : Text) → text_eq a b ≡ false → text_eq (quote a) (quote b) ≡ false
quote-text_eq a b h = elim (Bool-cases (text_eq (quote a) (quote b))) [
  | inl same ↦ cc (snoc-text_eq 0x22 a b (unfold text_eq in ground (arith, same)))
  | inr differ ↦ differ
]

module _ (exists : Text → Bool) (ready e d : RuntimeIdentity) (acl : Acl) (t : Text)
    (p : Privilege) where
  abbrev whole : List Statement
  whole = script (record { example = some e; dispatcher = some d; ready = ready })

  dispatcher_limited :
      exists t ≡ true
      → privileges_of exists whole acl (quote d.role) t p
        ≡ (text_eq t (text "outbox_events") && is_outbox_privilege p)
  unfolding privileges_of privileges_after
  dispatcher_limited h = ground (arith, text_eq_refl (quote d.role))

  example_limited :
      text_eq (quote e.role) (quote d.role) ≡ false
      → exists t ≡ true
      → privileges_of exists whole acl (quote e.role) t p ≡ (
          (acl (quote e.role) t p || is_row_privilege p)
          && not (text_eq t (text "_sqlx_migrations") && is_write p))
  unfolding privileges_of privileges_after
  example_limited differ h = ground (arith, text_eq_refl (quote e.role))

  ready_limited :
      text_eq (quote ready.role) (quote d.role) ≡ false
      → text_eq (quote ready.role) (quote e.role) ≡ false
      → privileges_of exists whole acl (quote ready.role) t p ≡ acl (quote ready.role) t p
  unfolding privileges_of privileges_after
  ready_limited differ too = ground arith

-- The roles of the three identities, as they are written, are not the same.
distinct_quotes :
    (e d ready : RuntimeIdentity)
    → any_pair_shares (some e ∷ some d ∷ some ready ∷ []) ≡ false
    → (text_eq (quote e.role) (quote d.role) ≡ false)
      × ((text_eq (quote ready.role) (quote d.role) ≡ false)
          × (text_eq (quote ready.role) (quote e.role) ≡ false))
unfolding any_pair_shares any_shares
distinct_quotes e d ready h = (
  quote-text_eq e.role d.role (ground arith),
  (
    quote-text_eq ready.role d.role (ground (arith, text_eq_comm ready.role d.role)),
    quote-text_eq ready.role e.role (ground (arith, text_eq_comm ready.role e.role)),
  ),
)

-- If an installation with the example module returns, then on a table that the schema `bc_example`
-- has, the dispatcher's role has the privileges SELECT and UPDATE on `outbox_events` and no other,
-- the module's role has SELECT, INSERT, UPDATE, DELETE and what it had before, but none of the
-- three that write `_sqlx_migrations`, and the readiness role has what it had before.
pub privileges_of-migrate_installation :
    (S : Server) (U : Urls) (sha256 : List ℕ → List ℕ) (operations_url : Text)
    (example_url dispatcher_url : Option Text) (readiness_url : Text) (ready e d : RuntimeIdentity)
    (exists : Text → Bool) (acl : Acl) (t : Text) (p : Privilege)
    → check_identities U sha256 operations_url true example_url dispatcher_url readiness_url
      ≡ ok (record { example = some e; dispatcher = some d; ready = ready })
    → (migrate_installation S U sha256 operations_url true example_url dispatcher_url readiness_url
        []).0
      ≡ returns tt
    → exists t ≡ true
    → let log =
        (migrate_installation S U sha256 operations_url true example_url dispatcher_url
          readiness_url []).1 in
      let after = privileges_of exists (scripted log) acl in
      (after (quote d.role) t p ≡ (text_eq t (text "outbox_events") && is_outbox_privilege p))
      × ((after (quote e.role) t p ≡ (
            (acl (quote e.role) t p || is_row_privilege p)
            && not (text_eq t (text "_sqlx_migrations") && is_write p)))
          × (after (quote ready.role) t p ≡ acl (quote ready.role) t p))
unfolding scripted
privileges_of-migrate_installation S U sha256 operations_url example_url dispatcher_url
      readiness_url ready e d exists acl t p h done there =
    let c =
      check_identities-AreChecked U sha256 operations_url true example_url dispatcher_url
        readiness_url h in
    let (ed, (rd, re)) = distinct_quotes e d ready c.distinct in
    let sent =
      migrate_installation-Sent S U sha256 operations_url true example_url dispatcher_url
        readiness_url _ h in
    rw (Sent-scripted sent (rw done refl)) (
      dispatcher_limited exists ready e d acl t p there,
      (
        example_limited exists ready e d acl t p ed there,
        ready_limited exists ready e d acl t p rd re,
      ),
    )
