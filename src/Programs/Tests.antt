-- ===== src/Programs/Tests.antt =====
-- The theorems about the programs at the sample host.
use better_commerce.Prelude.{
  ◌≡◌, refl, ◌↔◌, true, some, none, Text, text, List, [], ◌∷◌, All, ok, returns, get, put, text_eq,
  text_lt, arith,
}
use mathlib.Core.Option.{bind}
use better_commerce.Manifest.Types.{ValidatedManifest}
use better_commerce.Manifest.Samples.{crates, metadata, demo}
use better_commerce.Manifest.Validate.{parse_and_validate}
use better_commerce.Manifest.Validate.Accepts.{accepted}
use better_commerce.Manifest.Tests.{supported, demo-accepted}
use better_commerce.Example.Configuration.{parse_configuration, is_whitespace, trim_start, trim_end}
use better_commerce.Example.Module
use better_commerce.Example.Module.{ReadyAnswers, attach_database}
use better_commerce.Composition.Types.{Composition, example}
use better_commerce.Composition.Compose.{
  example_id, compose_module, compose_rest, compose_modules, module_of, attach_example_database,
}
use better_commerce.Http.Routes.{ok_response, router_with_readiness, at_readyz}
use better_commerce.Http.Ready.{IsMigrated}
use better_commerce.Database.Samples.{
  server, operations_url, example_identity, dispatcher_identity, ready_identity,
}
use better_commerce.Database.Tests.{installed-returns}
use better_commerce.Reconcile.Samples.{machine}
use better_commerce.Programs.Start.{load_manifest, start}
use better_commerce.Programs.Migrate.{MigrateArguments, installation_arguments, migrate_main}
use better_commerce.Programs.Installs.{IsInstalled, migrate_main-IsInstalled}
use better_commerce.Programs.Api.{Served, api_main}
use better_commerce.Programs.Serves.{IsMigratedEntry, api_main-readyz_iff}
use better_commerce.Programs.Bc.{bc_main}
use better_commerce.Programs.Ends.{IsEnd, bc_main-IsEnd}
use better_commerce.Reconcile.Ready.{HasClock}
use better_commerce.Programs.Samples.{host}

abbrev valid : ValidatedManifest crates
valid = accepted crates metadata demo

loaded : load_manifest host ≡ returns valid
unfolding load_manifest parse_and_validate
loaded = rw (supported, demo-accepted) refl

abbrev composition : Composition
composition = record {
  modules = (example_id, example (Module.new (record { label = text "label: Demo" }))) ∷ [];
}

started : start host ≡ returns composition
unfolding start compose_modules compose_rest compose_module parse_configuration is_whitespace
    trim_start trim_end put text_eq text_lt
started = rw loaded refl

abbrev arguments : MigrateArguments
arguments = record {
  operations_url = operations_url;
  example_enabled = true;
  example_url = some example_identity.role;
  dispatcher_url = some dispatcher_identity.role;
  readiness_url = ready_identity.role;
}

arguments_given : installation_arguments host ≡ returns arguments
unfolding installation_arguments module_of get text_eq
arguments_given = rw started refl

migrated : (migrate_main host server []).0 ≡ returns tt
unfolding migrate_main
migrated = rw (arguments_given, installed-returns) refl

migrate_main-IsInstalled_example : IsInstalled host (migrate_main host server []).1
migrate_main-IsInstalled_example = migrate_main-IsInstalled host server migrated

abbrev served : Served
served = record {
  composition = record {
    modules =
        (
          example_id,
          example (record {
            configuration = record { label = text "label: Demo" };
            attached = some (record { database_url = example_identity.role });
          }),
        )
        ∷ [];
  };
  readiness = some (record { shared = ready_identity.role });
  port = 3000;
}

serves : api_main host ≡ returns served
unfolding api_main module_of get put text_eq attach_example_database bind
serves = rw started refl

abbrev answers : Text → ReadyAnswers
answers id = record { migrations = ok []; ping = ok tt }

api_main-readyz_iff_example :
    (router_with_readiness [] []
        (answers [])
        answers
        served.composition
        served.readiness
        at_readyz
        none
      ≡ ok_response)
    ↔ (IsMigrated [] (answers []) × All (IsMigratedEntry [] answers) served.composition.modules)
api_main-readyz_iff_example = api_main-readyz_iff host [] [] (answers []) answers none served serves

abbrev command : List Text
command = text "reconcile" ∷ text "--manifest" ∷ text "manifest.yaml" ∷ []

clock : HasClock machine
clock = record { first = omega arith; sleeps = λ n. omega arith }

bc_main-IsEnd_example : IsEnd machine command (bc_main machine command)
bc_main-IsEnd_example =
    bc_main-IsEnd machine (record { major = 1; minor = 0; patch = 0 }) refl clock command
