-- ===== src/Database/Session.antt =====
-- A session of core/src/database.rs with its server: what is sent, in order, and code that reads
-- the answers and may stop early. The server is any function of what it was sent so far.
use better_commerce.Prelude.{
  ℕ, Bool, Option, none, some, Text, List, [], ◌∷◌, ◌++◌, Result, ok, err, Outcome, returns, fails,
  panics, out_of_fuel,
}
use better_commerce.Dispatcher.Types.{SqlError}
use better_commerce.Database.Types.{DatabaseError, sql_error}
use better_commerce.Database.Sql.{Statement, sql_text}

pub data Request : Type 0 where
  opened : (url : Text) → Request
  asked : (query : Text) (binds : List Text) → Request
  executed : (statement : Statement) → Request
  migrated : (schema : Text) → Request
  closed : Request

abbrev pub Log : Type 0
Log = List Request

-- The answers to a request after a log. A migrator's run is one request, and so are the opening of
-- the pool with its connection and their closing. A count is not negative.
pub record Server : Type 0 where
  pub open_session : Log → Text → Result SqlError (Unit {0})
  pub fetch_bool : Log → Text → List Text → Result SqlError Bool
  pub fetch_count : Log → Text → List Text → Result SqlError ℕ
  pub fetch_text : Log → Text → List Text → Result SqlError Text
  pub execute_sql : Log → Text → Result SqlError (Unit {0})
  pub run_migrator : Log → Text → Result SqlError (Unit {0})
  pub close_session : Log → Result SqlError (Unit {0})

abbrev pub Session : Type 0 → Type 0
Session A = Log → Outcome DatabaseError A × Log

-- The rest of a session after the outcome of its beginning.
abbrev pub resume :
    {A B : Type 0} → Outcome DatabaseError A × Log → (A → Session B) → Outcome DatabaseError B × Log
resume (returns a, log) rest = rest a log
resume (fails e, log) rest = (fails e, log)
resume (panics, log) rest = (panics, log)
resume (out_of_fuel, log) rest = (out_of_fuel, log)

infixl 5 ◌>>=◌ ◌>>◌
abbrev pub ◌>>=◌ : {A B : Type 0} → Session A → (A → Session B) → Session B
◌>>=◌ first rest log = resume (first log) rest

abbrev pub ◌>>◌ : {B : Type 0} → Session (Unit {0}) → Session B → Session B
first >> rest = first >>= λ _. rest

abbrev pub finish : {A : Type 0} → A → Session A
finish a log = (returns a, log)

abbrev pub stop : {A : Type 0} → DatabaseError → Session A
stop e log = (fails e, log)

abbrev pub answered_by : {A : Type 0} → Result SqlError A → Outcome DatabaseError A
answered_by (ok a) = returns a
answered_by (err e) = fails (sql_error e)

-- `expect` on a result.
abbrev pub expect : {E A : Type 0} → Result E A → Session A
expect (ok a) log = (returns a, log)
expect (err e) log = (panics, log)

-- `if let Some(value) = &option { .. }`.
abbrev pub when_some : {A : Type 0} → Option A → (A → Session (Unit {0})) → Session (Unit {0})
when_some none rest = finish tt
when_some (some a) rest = rest a

module _ (S : Server) where
  unfoldable pub connect : Text → Session (Unit {0})
  connect url log = (answered_by (S.open_session log url), log ++ opened url ∷ [])

  unfoldable pub ask_bool : Text → List Text → Session Bool
  ask_bool query binds log =
      (answered_by (S.fetch_bool log query binds), log ++ asked query binds ∷ [])

  unfoldable pub ask_count : Text → List Text → Session ℕ
  ask_count query binds log =
      (answered_by (S.fetch_count log query binds), log ++ asked query binds ∷ [])

  unfoldable pub ask_text : Text → List Text → Session Text
  ask_text query binds log =
      (answered_by (S.fetch_text log query binds), log ++ asked query binds ∷ [])

  unfoldable pub execute : Statement → Session (Unit {0})
  execute statement log =
      (answered_by (S.execute_sql log (sql_text statement)), log ++ executed statement ∷ [])

  unfoldable pub migrate : Text → Session (Unit {0})
  migrate schema log = (answered_by (S.run_migrator log schema), log ++ migrated schema ∷ [])

  unfoldable pub close : Session (Unit {0})
  close log = (answered_by (S.close_session log), log ++ closed ∷ [])
