-- ===== src/Programs/Migrate.antt =====
-- `main` of core/src/bin/migrate.rs.
use better_commerce.Prelude.{
  Bool, true, false, Option, none, some, is_some, Text, text, Outcome, returns, fails, panics,
  out_of_fuel,
}
use better_commerce.Prelude.Outcomes.{fails_with, ◌>>=◌}
use better_commerce.Manifest.Types.{Crates}
use better_commerce.Composition.Compose.{module_of}
use better_commerce.Database.Session.{Log, Server}
use better_commerce.Database.Migrate.{migrate_installation}
use better_commerce.Programs.Types.{ProgramError, database_failed, Host}
use better_commerce.Programs.Start.{var, start}

-- The arguments of `migrate_installation`.
pub record MigrateArguments : Type 0 where
  pub operations_url : Text
  pub example_enabled : Bool
  pub example_url : Option Text
  pub dispatcher_url : Option Text
  pub readiness_url : Text

module _ {X : Crates} (H : Host X) where
  -- `if example_enabled { Some(std::env::var(name)?) } else { None }`.
  abbrev pub enabled_var : Bool → Text → Outcome ProgramError (Option Text)
  enabled_var false name = returns none
  enabled_var true name = var H name >>= λ value. returns (some value)

  unfoldable pub installation_arguments : Outcome ProgramError MigrateArguments
  installation_arguments = do
    composition ← start H
    let example_enabled = is_some (module_of (text "example") composition)
    example_url ← enabled_var example_enabled (text "EXAMPLE_RUNTIME_DATABASE_URL")
    dispatcher_url ← enabled_var example_enabled (text "DISPATCHER_DATABASE_URL")
    operations_url ← var H (text "OPERATIONS_DATABASE_URL")
    readiness_url ← var H (text "READINESS_DATABASE_URL")
    returns (record {
      operations_url = operations_url;
      example_enabled = example_enabled;
      example_url = example_url;
      dispatcher_url = dispatcher_url;
      readiness_url = readiness_url;
    })

  module _ (S : Server) where
    abbrev pub run_installation : MigrateArguments → Log → Outcome ProgramError (Unit {0}) × Log
    run_installation a log =
        let (result, sent) =
          migrate_installation S H.urls H.sha256 a.operations_url a.example_enabled a.example_url
            a.dispatcher_url a.readiness_url log in
        (fails_with database_failed result, sent)

    abbrev pub with_arguments :
        Outcome ProgramError MigrateArguments → Log → Outcome ProgramError (Unit {0}) × Log
    with_arguments (returns a) log = run_installation a log
    with_arguments (fails e) log = (fails e, log)
    with_arguments panics log = (panics, log)
    with_arguments out_of_fuel log = (out_of_fuel, log)

    unfoldable pub migrate_main : Log → Outcome ProgramError (Unit {0}) × Log
    migrate_main log = with_arguments installation_arguments log
