-- ===== src/Example/Module.antt =====
-- `ExampleModule` of modules/example/src/lib.rs. A database of the module stands for its URL; what
-- its pool answers comes from the environment.
use better_commerce.Prelude.{
  Bool, true, false, Option, none, some, Text, List, [], ◌∷◌, Result, ok, err,
}
use better_commerce.Prelude.Results.{map_err, ◌>>◌}
use better_commerce.Dispatcher.Types.{SqlError}
use better_commerce.Example.Types.{
  ExampleConfiguration, ExampleError, database_not_attached, database, ExampleRecordCreated,
  ExampleSchema, CreateStatements, JsonValues,
}
use better_commerce.Example.Migrations.{AppliedMigration, Migration, migration_state_is_current}
use better_commerce.Example.Database.{create_record}

pub record ExampleDatabase : Type 0 where
  pub database_url : Text

pub record ExampleModule : Type 0 where
  pub configuration : ExampleConfiguration
  pub attached : Option ExampleDatabase

-- `ExampleModule::new`.
abbrev pub new : ExampleConfiguration → ExampleModule
new configuration = record { configuration = configuration; attached = none }

abbrev pub label : ExampleModule → Text
label module' = module'.configuration.label

abbrev pub attach_database : ExampleDatabase → ExampleModule → ExampleModule
attach_database d module' = record module' { attached = some d }

-- `ExampleDatabase::connect`, where `connect_lazy` reads the URL.
abbrev pub connect : (Text → Result SqlError (Unit {0})) → Text → Result SqlError ExampleDatabase
connect connect_lazy database_url = do
  connect_lazy database_url
  ok (record { database_url = database_url })

-- The answers of a module's database to the two queries of `database_is_ready`.
pub record ReadyAnswers : Type 0 where
  pub migrations : Result SqlError (List AppliedMigration)
  pub ping : Result SqlError (Unit {0})

-- The pools that an operation closes, in order.
abbrev pub close : ExampleDatabase → List ExampleDatabase
close d = d ∷ []

-- `close_database`.
unfoldable pub close_database : ExampleModule → List ExampleDatabase
close_database module' = elim module'.attached [ none ↦ [] | some d ↦ close d ]

abbrev pub is_ok : {A : Type 0} → Result SqlError A → Bool
is_ok (ok a) = true
is_ok (err e) = false

-- `matches!(result, Ok(true)) && ping.is_ok()`.
abbrev pub both_ready : Result SqlError Bool → Result SqlError (Unit {0}) → Bool
both_ready (ok true) ping = is_ok ping
both_ready (ok false) ping = false
both_ready (err e) ping = false

unfoldable pub database_is_ready : List Migration → ReadyAnswers → ExampleModule → Bool
database_is_ready expected answers module' = elim module'.attached [
  | none ↦ false
  | some d ↦ both_ready (migration_state_is_current expected answers.migrations) answers.ping
]

module _ {Json : Type 0} (J : JsonValues Json) where
  unfoldable pub create_module_record :
      CreateStatements
      → Text
      → ExampleModule
      → ExampleSchema Json
      → Result ExampleError ExampleRecordCreated × ExampleSchema Json
  create_module_record q label' module' s = elim module'.attached [
    | none ↦ (err database_not_attached, s)
    | some d ↦ let (result, after) = create_record J q label' s in (map_err database result, after)
  ]
