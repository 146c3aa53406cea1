-- ===== src/Http/Ready.antt =====
-- When `/readyz` of core/src/http/routes.rs answers with 200.
use better_commerce.Prelude.{
  ◌≡◌, refl, ◌↔◌, true, Option, none, some, Text, List, [], ◌∷◌, map, All, Result, ok, err, arith,
  BTreeMap,
}
use better_commerce.Dispatcher.Types.{SqlError}
use better_commerce.Example.Migrations.{
  AppliedMigration, Migration, applied, is_current, is_current_iff, migration_state_is_current,
}
use better_commerce.Example.Module.{
  ExampleDatabase, ExampleModule, ReadyAnswers, is_ok, both_ready, database_is_ready,
}
use better_commerce.Composition.Types.{ComposedModule, example, Composition}
use better_commerce.Composition.Compose.{all_ready, modules_are_ready}
use better_commerce.Http.Context.{RequestContext}
use better_commerce.Http.Routes.{
  ReadinessDatabase, is_ready, rows_ready, ok_response, readyz, router_with_readiness, at_readyz,
}

-- A database answers, and all its migrations are applied and no others.
pub record IsMigrated (expected : List Migration) (answers : ReadyAnswers) : Type 0 where
  pub migrations : answers.migrations ≡ ok (map applied expected)
  pub ping : is_ok answers.ping ≡ true

module _ (expected : List Migration) where
  rows_ready_iff :
      (r : Result SqlError (List AppliedMigration)) (ping : Result SqlError (Unit {0}))
      → (rows_ready expected r ping ≡ true)
        ↔ ((r ≡ ok (map applied expected)) × (is_ok ping ≡ true))
  unfolding is_current
  rows_ready_iff (ok rows) ping = ground (arith, is_current_iff rows expected)
  rows_ready_iff (err e) ping = ground arith

  is_ready_iff :
      (answers : ReadyAnswers) → (is_ready expected answers ≡ true) ↔ IsMigrated expected answers
  unfolding is_ready
  is_ready_iff answers = (
    λ h.
        let (m, p) = (rows_ready_iff answers.migrations answers.ping).0 h in
        record { migrations = m; ping = p },
    λ v. (rows_ready_iff answers.migrations answers.ping).1 (v.migrations, v.ping),
  )

  both_ready_iff :
      (r : Result SqlError (List AppliedMigration)) (ping : Result SqlError (Unit {0}))
      → (both_ready (migration_state_is_current expected r) ping ≡ true)
        ↔ ((r ≡ ok (map applied expected)) × (is_ok ping ≡ true))
  unfolding migration_state_is_current
  both_ready_iff (ok rows) ping = ground (arith, is_current_iff rows expected)
  both_ready_iff (err e) ping = ground arith

  -- The module has a database, and that one is migrated.
  abbrev pub IsModuleReady : ReadyAnswers → ExampleModule → Type 0
  IsModuleReady answers m =
      ((d : ExampleDatabase) × (m.attached ≡ some d)) × IsMigrated expected answers

  attached_ready :
      (answers : ReadyAnswers) (m : ExampleModule) (o : Option ExampleDatabase)
      → m.attached ≡ o
      → (database_is_ready expected answers m ≡ true) ↔ IsModuleReady answers m
  unfolding database_is_ready
  attached_ready answers m none e = ground arith
  attached_ready answers m (some d) e = (
    λ h.
        let (k, p) = (both_ready_iff answers.migrations answers.ping).0 (rw e at h) in
        ((d, e), record { migrations = k; ping = p }),
    λ (_, v). rw e ((both_ready_iff answers.migrations answers.ping).1 (v.migrations, v.ping)),
  )

  module _ (answers : Text → ReadyAnswers) where
    abbrev pub IsReadyEntry : Text × ComposedModule → Type 0
    IsReadyEntry (id, example m) = IsModuleReady (answers id) m

    all_ready_iff :
        (modules : BTreeMap ComposedModule)
        → (all_ready expected answers modules ≡ true) ↔ All IsReadyEntry modules
    unfolding all_ready
    all_ready_iff [] = ground arith
    all_ready_iff ((id, example m) ∷ rest) =
        let (f, g) = attached_ready (answers id) m m.attached refl in
        let (h, k) = all_ready_iff rest in
        (λ e. (f (ground arith), h (ground arith)), λ (a, b). ground (arith, g a, k b))

module _ (shared expected : List Migration) (shared_answers : ReadyAnswers)
    (answers : Text → ReadyAnswers) (context : Option RequestContext) (c : Composition) where
  -- A request for /readyz is answered with 200 exactly if a readiness database is attached, it is
  -- migrated, and each composed module has a database that is migrated.
  pub readyz_iff :
      (readiness : Option ReadinessDatabase)
      → (router_with_readiness shared expected shared_answers answers c readiness at_readyz context
          ≡ ok_response)
        ↔ (((d : ReadinessDatabase) × (readiness ≡ some d))
            × IsMigrated shared shared_answers
            × All (IsReadyEntry expected answers) c.modules)
  unfolding router_with_readiness readyz modules_are_ready
  readyz_iff none = ground arith
  readyz_iff (some d) =
      let (f, g) = is_ready_iff shared shared_answers in
      let (h, k) = all_ready_iff expected answers c.modules in
      (λ e. ((d, refl), f (ground arith), h (ground arith)), λ (_, a, b). ground (arith, g a, k b))
