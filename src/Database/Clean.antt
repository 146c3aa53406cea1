-- ===== src/Database/Clean.antt =====
-- The four queries of `ensure_role_is_scoped` in core/src/database.rs.
use better_commerce.Prelude.{
  ℕ, ◌≡◌, refl, ◌∙◌, Bool, true, false, not, ◌||◌, ◌==◌, Text, [], ◌∷◌, ◌++◌, ok, err, Result,
  Outcome, returns, fails, panics, out_of_fuel, arith,
}
use better_commerce.Dispatcher.Types.{SqlError}
use better_commerce.Database.Types.{DatabaseError}
use better_commerce.Database.Session.{
  Log, Session, Server, asked, resume, answered_by, ask_bool, ask_count,
}
use better_commerce.Database.Provision.{
  stop_if, ensure_role_is_scoped, privileged_query, memberships_query, other_schemas_query,
  database_create_query, privileges_error,
}
use better_commerce.Database.Sent.{is_return}

-- What a session that returns has passed.
pub resume-returns :
    {A B : Type 0} (out : Outcome DatabaseError A × Log) (rest : A → Session B)
    → is_return (resume out rest).0 ≡ true
    → (a : A) × ((out.0 ≡ returns a) × (is_return (rest a out.1).0 ≡ true))
resume-returns (returns a, log) rest h = (a, (refl, h))
resume-returns (fails e, log) rest h = cc
resume-returns (panics, log) rest h = cc
resume-returns (out_of_fuel, log) rest h = cc

answered_by-ok : {A : Type 0} (r : Result SqlError A) {a : A} → answered_by r ≡ returns a → r ≡ ok a
answered_by-ok (ok a) h = cc
answered_by-ok (err e) h = cc

stop_if-returns :
    (b : Bool) (e : DatabaseError) (log : Log) → is_return (stop_if b e log).0 ≡ true → b ≡ false
stop_if-returns true e log h = cc
stop_if-returns false e log h = refl

all_clean :
    (privileged : Bool) (memberships other_schemas : ℕ) (database_create : Bool)
    → (privileged || (not (memberships == 0) || (not (other_schemas == 0) || database_create)))
      ≡ false
    → (privileged ≡ false) × ((memberships ≡ 0) × ((other_schemas ≡ 0) × (database_create ≡ false)))
all_clean p m o d h = (ground arith, (ground arith, (ground arith, ground arith)))

module _ (S : Server) where
  -- From this log on, the four queries about a role find nothing that it should not have.
  pub record IsScopedAt (role schema : Text) (log : Log) : Type 0 where
    pub not_privileged : S.fetch_bool log privileged_query (role ∷ []) ≡ ok false
    pub no_memberships :
        S.fetch_count (log ++ asked privileged_query (role ∷ []) ∷ []) memberships_query (role ∷ [])
        ≡ ok 0
    pub no_other_schemas :
        S.fetch_count
          ((log ++ asked privileged_query (role ∷ []) ∷ [])
            ++ asked memberships_query (role ∷ []) ∷ [])
          other_schemas_query
          (role ∷ schema ∷ [])
        ≡ ok 0
    pub no_database_create :
        S.fetch_bool
          (((log ++ asked privileged_query (role ∷ []) ∷ [])
              ++ asked memberships_query (role ∷ []) ∷ [])
            ++ asked other_schemas_query (role ∷ schema ∷ []) ∷ [])
          database_create_query
          (role ∷ [])
        ≡ ok false

  -- The log with the four queries about a role behind it.
  abbrev pub queried : Text → Text → Log → Log
  queried role schema log =
      (((log ++ asked privileged_query (role ∷ []) ∷ [])
          ++ asked memberships_query (role ∷ []) ∷ [])
        ++ asked other_schemas_query (role ∷ schema ∷ []) ∷ [])
      ++ asked database_create_query (role ∷ []) ∷ []

  stop_if-log : (b : Bool) (e : DatabaseError) (log : Log) → (stop_if b e log).1 ≡ log
  stop_if-log true e log = refl
  stop_if-log false e log = refl

  resume-log :
      {A B : Type 0} (out : Outcome DatabaseError A × Log) (rest : A → Session B)
      → is_return (resume out rest).0 ≡ true
      → (a : A) × ((resume out rest).1 ≡ (rest a out.1).1) × (is_return (rest a out.1).0 ≡ true)
  resume-log (returns a, log) rest h = (a, refl, h)
  resume-log (fails e, log) rest h = cc
  resume-log (panics, log) rest h = cc
  resume-log (out_of_fuel, log) rest h = cc

  pub ensure_role_is_scoped-queried :
      (role schema : Text) (log : Log)
      → is_return (ensure_role_is_scoped S role schema log).0 ≡ true
      → (ensure_role_is_scoped S role schema log).1 ≡ queried role schema log
  unfolding ensure_role_is_scoped ask_bool ask_count
  ensure_role_is_scoped-queried role schema log h =
      let (privileged, a, h1) = resume-log (ask_bool S privileged_query (role ∷ []) log) _ h in
      let (memberships, b, h2) = resume-log (ask_count S memberships_query (role ∷ []) _) _ h1 in
      let (other_schemas, c, h3) =
        resume-log (ask_count S other_schemas_query (role ∷ schema ∷ []) _) _ h2 in
      let (database_create, d, h4) =
        resume-log (ask_bool S database_create_query (role ∷ []) _) _ h3 in
      a ∙ (b ∙ (c ∙ (d ∙ stop_if-log _ privileges_error _)))

  pub ensure_role_is_scoped-IsScopedAt :
      (role schema : Text) (log : Log)
      → is_return (ensure_role_is_scoped S role schema log).0 ≡ true
      → IsScopedAt role schema log
  unfolding ensure_role_is_scoped ask_bool ask_count
  ensure_role_is_scoped-IsScopedAt role schema log h =
      let (privileged, (a, h1)) =
        resume-returns (ask_bool S privileged_query (role ∷ []) log) _ h in
      let (memberships, (b, h2)) =
        resume-returns (ask_count S memberships_query (role ∷ []) _) _ h1 in
      let (other_schemas, (c, h3)) =
        resume-returns (ask_count S other_schemas_query (role ∷ schema ∷ []) _) _ h2 in
      let (database_create, (d, h4)) =
        resume-returns (ask_bool S database_create_query (role ∷ []) _) _ h3 in
      let (e, (f, (g, k))) =
        all_clean privileged memberships other_schemas database_create
          (stop_if-returns _ privileges_error _ h4) in
      record {
        not_privileged = rw (← e) (answered_by-ok _ a);
        no_memberships = rw (← f) (answered_by-ok _ b);
        no_other_schemas = rw (← g) (answered_by-ok _ c);
        no_database_create = rw (← k) (answered_by-ok _ d);
      }
