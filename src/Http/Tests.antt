-- ===== src/Http/Tests.antt =====
-- A readiness request, and the theorem of core/src/http/routes.rs about it.
use better_commerce.Prelude.{text_eq, ◌≡◌, ◌↔◌, refl, some, none, text, [], ◌∷◌, List, All, ok, pos}
use better_commerce.Example.Migrations.{Migration, all_applied, applied}
use better_commerce.Example.Module
use better_commerce.Example.Module.{ReadyAnswers, ExampleModule, database_is_ready}
use better_commerce.Composition.Types.{Composition, example}
use better_commerce.Composition.Compose.{all_ready, modules_are_ready, example_id}
use better_commerce.Http.Routes.{
  ReadinessDatabase, Response, ok_response, not_ready_response, is_ready, readyz,
  router_with_readiness, at_readyz,
}
use better_commerce.Http.Ready.{IsMigrated, IsReadyEntry, readyz_iff}

abbrev expected : List Migration
expected = record { version = pos 1; checksum = 7 ∷ [] } ∷ []

abbrev answers : ReadyAnswers
answers = record {
  migrations = ok (applied (record { version = pos 1; checksum = 7 ∷ [] }) ∷ []);
  ping = ok tt;
}

abbrev unattached : ExampleModule
unattached = Module.new (record { label = text "Demo" })

abbrev demo_module : ExampleModule
demo_module = record unattached { attached = some (record { database_url = text "postgres" }) }

abbrev demo : ExampleModule → Composition
demo m = record { modules = (example_id, example m) ∷ [] }

abbrev database : ReadinessDatabase
database = record { shared = text "postgres" }

abbrev answer : ExampleModule → Response
answer m =
    router_with_readiness expected expected answers (λ id. answers) (demo m) (some database)
      at_readyz none

not_attached : answer unattached ≡ not_ready_response
unfolding router_with_readiness readyz is_ready all_applied modules_are_ready all_ready text_eq
    database_is_ready
not_attached = refl

readyz_iff_example : (answer demo_module ≡ ok_response) ↔ (
    ((d : ReadinessDatabase) × (some database ≡ some d))
    × IsMigrated expected answers
    × All (IsReadyEntry expected (λ id. answers)) (demo demo_module).modules)
readyz_iff_example =
    readyz_iff expected expected answers (λ id. answers) none (demo demo_module) (some database)
