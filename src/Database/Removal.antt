-- ===== src/Database/Removal.antt =====
-- The check of `migrate_installation` in core/src/database.rs that refuses to remove a module.
use better_commerce.Prelude.{
  ℕ, ◌≡◌, refl, ◌⊎◌, inl, inr, Bool, true, false, ◌&&◌, Option, Text, text, List, [], ◌∷◌, ◌++◌, ok,
  err, Result, Outcome, returns, fails, panics, out_of_fuel, arith,
}
use better_commerce.Prelude.Results.{Result-cases}
use better_commerce.Dispatcher.Types.{SqlError}
use better_commerce.Database.Types.{DatabaseError, Urls, Identities}
use better_commerce.Database.Identity.{check_identities}
use better_commerce.Database.Session.{
  Request, Log, Session, Server, opened, asked, resume, answered_by, connect, ask_bool,
}
use better_commerce.Database.Provision.{
  module_is_initialized, history_is_applied, history_query, applied_query, stop_if,
}
use better_commerce.Database.Migrate.{
  example_schema, removal_error, provision, migrate_installation,
}
use better_commerce.Database.Sent.{is_return}

-- Requests that change nothing in the database.
abbrev pub is_read : Request → Bool
is_read (opened url) = true
is_read (asked query binds) = true
is_read _ = false

unfoldable pub only_reads : Log → Bool
only_reads [] = true
only_reads (request ∷ log) = is_read request && only_reads log

only_reads-append : (l k : Log) → only_reads (l ++ k) ≡ (only_reads l && only_reads k)
unfolding only_reads
only_reads-append [] k = refl
only_reads-append (request ∷ l) k = ground (arith, only_reads-append l k)

-- The guard with the rest of the session behind it.
guarded :
    (out : Outcome DatabaseError Bool × Log) (rest : Session (Unit {0}))
    → only_reads out.1 ≡ true
    → let end = resume (resume out (λ found. stop_if found removal_error)) (λ _. rest) in
      (out.0 ≡ returns false) ⊎ ((is_return end.0 ≡ false) × (only_reads end.1 ≡ true))
guarded (returns false, log) rest h = inl refl
guarded (returns true, log) rest h = inr (refl, h)
guarded (fails e, log) rest h = inr (refl, h)
guarded (panics, log) rest h = inr (refl, h)
guarded (out_of_fuel, log) rest h = inr (refl, h)

module _ (S : Server) where
  history_is_applied-only_reads :
      (schema : Text) (log : Log) (answer : Result SqlError Bool)
      → only_reads log ≡ true
      → only_reads (resume (answered_by answer, log) (history_is_applied S schema)).1 ≡ true
  unfolding only_reads ask_bool
  history_is_applied-only_reads schema log (err e) h = h
  history_is_applied-only_reads schema log (ok false) h = h
  history_is_applied-only_reads schema log (ok true) h =
      rw (only_reads-append log (asked (applied_query schema) [] ∷ []), h) refl

  module_is_initialized-only_reads :
      (schema : Text) (log : Log)
      → only_reads log ≡ true
      → only_reads (module_is_initialized S schema log).1 ≡ true
  unfolding only_reads module_is_initialized ask_bool
  module_is_initialized-only_reads schema log h =
      let asks : Log = asked history_query ((schema ++ text "._sqlx_migrations") ∷ []) ∷ [] in
      history_is_applied-only_reads schema (log ++ asks) _ (rw (only_reads-append log asks, h) refl)

  connected :
      (url : Text) (ids : Identities) (answer : Result SqlError (Unit {0}))
      → let end = resume (answered_by answer, opened url ∷ []) (λ _. provision S false ids) in
        ((module_is_initialized S example_schema (opened url ∷ [])).0 ≡ returns false)
        ⊎ ((is_return end.0 ≡ false) × (only_reads end.1 ≡ true))
  unfolding provision only_reads
  connected url ids (err e) = inr (refl, refl)
  connected url ids (ok tt) =
      guarded (module_is_initialized S example_schema (opened url ∷ [])) _
        (module_is_initialized-only_reads example_schema (opened url ∷ []) refl)

  -- Without the example module, either the first queries after the connection answer that the
  -- module is not initialized, or the installation fails and nothing but queries was sent.
  pub migrate_installation-only_reads :
      (U : Urls) (sha256 : List ℕ → List ℕ) (operations_url : Text)
      (example_url dispatcher_url : Option Text) (readiness_url : Text)
      → let (outcome, log) =
          migrate_installation S U sha256 operations_url false example_url dispatcher_url
            readiness_url [] in
        ((module_is_initialized S example_schema (opened operations_url ∷ [])).0 ≡ returns false)
        ⊎ ((is_return outcome ≡ false) × (only_reads log ≡ true))
  unfolding migrate_installation only_reads connect
  migrate_installation-only_reads U sha256 operations_url example_url dispatcher_url readiness_url =
      elim (Result-cases
        (check_identities U sha256 operations_url false example_url dispatcher_url readiness_url)) [
          | inr (e, h) ↦ inr (rw h refl, rw h refl)
          | inl (ids, h) ↦ rw h (connected operations_url ids (S.open_session [] operations_url))
        ]
