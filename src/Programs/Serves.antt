-- ===== src/Programs/Serves.antt =====
-- What core/src/main.rs serves.
use better_commerce.Prelude.{
  ◌≡◌, refl, ◌↔◌, inl, inr, Option, some, Text, text, List, [], ◌∷◌, BTreeMap, get, put, All,
  Result, ok, err, returns, text_eq_refl,
}
use better_commerce.Prelude.Results.{map_err, map_err-ok}
use better_commerce.Prelude.Outcomes.{of_result, or_fail, >>=-eq-returns}
use better_commerce.Manifest.Types.{Crates, ValidatedManifest}
use better_commerce.Dispatcher.Types.{SqlError}
use better_commerce.Example.Migrations.{Migration}
use better_commerce.Example.Module.{
  ExampleDatabase, ExampleModule, ReadyAnswers, connect, attach_database,
}
use better_commerce.Composition.Types.{ComposedModule, example, Composition}
use better_commerce.Composition.Compose.{
  example_id, compose_modules, module_of, attach_example_database, attached_to,
}
use better_commerce.Composition.Only.{IsOnlyExample, compose_modules-IsOnlyExample}
use better_commerce.Http.Context.{RequestContext}
use better_commerce.Http.Routes.{
  connect_readiness, ReadinessDatabase, ok_response, router_with_readiness, at_readyz,
}
use better_commerce.Http.Ready.{IsMigrated, IsReadyEntry, readyz_iff}
use better_commerce.Programs.Types.{io_error, refused_url, invalid_manifest, Host}
use better_commerce.Programs.Start.{var, start, load_manifest}
use better_commerce.Programs.Api.{Served, attach_result, attach_if, api_port, api_main}

of_result-returns : {E A : Type 0} (r : Result E A) {a : A} → of_result r ≡ returns a → r ≡ ok a
of_result-returns (ok a) h = cc
of_result-returns (err e) h = cc

-- A module that has a database.
abbrev pub IsAttached : Text × ComposedModule → Type 0
IsAttached (id, example m) = (d : ExampleDatabase) × (m.attached ≡ some d)

module _ {X : Crates} (H : Host X) where
  pub start-composes :
      {c : Composition}
      → start H ≡ returns c
      → (v : ValidatedManifest X) × ((load_manifest H ≡ returns v)
          × (compose_modules X H.from_value v ≡ ok c))
  unfolding start
  start-composes h =
      let (v, loaded, composed) = >>=-eq-returns (load_manifest H) _ h in
      (v, (loaded, map_err-ok invalid_manifest _ (of_result-returns _ composed)))

  IsAttached-All :
      (m : ExampleModule) (url : Text) (answer : Result SqlError (Unit {0})) (out : Composition)
      → H.connect_lazy url ≡ answer
      → attach_result (
          attach_example_database H.connect_lazy url
            (record { modules = (example_id, example m) ∷ [] }))
        ≡ returns out
      → All IsAttached out.modules
  unfolding attach_example_database get put
  IsAttached-All m url (err x) out p h =
      cc (rw (text_eq_refl example_id, attached_to, connect, p) at h)
  IsAttached-All m url (ok done) out p h =
      let d : ExampleDatabase = record { database_url = url } in
      let is : record { modules = (example_id, example (attach_database d m)) ∷ [] } ≡ out =
        cc (rw (text_eq_refl example_id, attached_to, connect, p, text_eq_refl example_id) at h) in
      rw (← is) ((d, refl), tt)

  attach_if-IsAttached :
      (modules : BTreeMap ComposedModule) (out : Composition)
      → IsOnlyExample modules
      → attach_if H (get example_id modules) (record { modules = modules }) ≡ returns out
      → All IsAttached out.modules
  unfolding get
  attach_if-IsAttached modules out (inl e) h =
      let is : record { modules = [] } ≡ out = cc (rw e at h) in rw (← is) tt
  attach_if-IsAttached modules out (inr (example m, e)) h =
      let (url, given, attached) =
        >>=-eq-returns (var H (text "EXAMPLE_RUNTIME_DATABASE_URL")) _
          (rw (e, text_eq_refl example_id) at h) in
      IsAttached-All m url (H.connect_lazy url) out refl attached

  api_main-IsAttached :
      {s : Served}
      → api_main H ≡ returns s
      → All IsAttached s.composition.modules × ((d : ReadinessDatabase) × (s.readiness ≡ some d))
  unfolding api_main
  api_main-IsAttached {s} h =
      let (c, started, h1) = >>=-eq-returns (start H) _ h in
      let (out, attached, h2) = >>=-eq-returns (attach_if H (module_of example_id c) c) _ h1 in
      let (url, given, h3) = >>=-eq-returns (var H (text "READINESS_DATABASE_URL")) _ h2 in
      let (readiness, connected, h4) =
        >>=-eq-returns (of_result (map_err refused_url (connect_readiness H.connect_lazy url))) _
          h3 in
      let (bound, listens, h5) = >>=-eq-returns (or_fail (H.listen (api_port H)) io_error) _ h4 in
      let is : record { composition = out; readiness = some readiness; port = api_port H } ≡ s =
        cc h5 in
      let (v, (loaded, composed)) = start-composes started in
      let only : IsOnlyExample c.modules =
        (compose_modules-IsOnlyExample X H.from_value v composed).0 in
      rw (← is)
        (unfold module_of in attach_if-IsAttached c.modules out only attached, (readiness, refl))

module _ (expected : List Migration) (answers : Text → ReadyAnswers) where
  -- The database of the module with this identifier is migrated.
  abbrev pub IsMigratedEntry : Text × ComposedModule → Type 0
  IsMigratedEntry (id, m) = IsMigrated expected (answers id)

  migrated_iff :
      (modules : BTreeMap ComposedModule)
      → All IsAttached modules
      → All (IsReadyEntry expected answers) modules ↔ All IsMigratedEntry modules
  migrated_iff [] all = (λ _. tt, λ _. tt)
  migrated_iff ((id, example m) ∷ rest) (attached, all) =
      let (f, g) = migrated_iff rest all in (λ (a, b). (a.1, f b), λ (a, b). ((attached, a), g b))

-- A request for /readyz to what the API program serves is answered with 200 exactly if the shared
-- database is migrated and so is the database of each composed module: each has one.
pub api_main-readyz_iff :
    {X : Crates} (H : Host X) (shared expected : List Migration) (shared_answers : ReadyAnswers)
    (answers : Text → ReadyAnswers) (context : Option RequestContext) (s : Served)
    → api_main H ≡ returns s
    → (router_with_readiness shared expected shared_answers answers s.composition s.readiness
          at_readyz context
        ≡ ok_response)
      ↔ (IsMigrated shared shared_answers
          × All (IsMigratedEntry expected answers) s.composition.modules)
api_main-readyz_iff H shared expected shared_answers answers context s h =
    let (all, there) = api_main-IsAttached H h in
    let (f, g) =
      readyz_iff shared expected shared_answers answers context s.composition s.readiness in
    let (j, k) = migrated_iff expected answers s.composition.modules all in
    (λ e. let (_, a, b) = f e in (a, j b), λ (a, b). g (there, a, k b))
