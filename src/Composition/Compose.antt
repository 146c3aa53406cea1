-- ===== src/Composition/Compose.antt =====
-- `compose_modules` and the methods of `Composition` in core/src/composition.rs, with the use cases
-- of modules/example-consumer/src/lib.rs that they call.
use better_commerce.Prelude.{
  Bool, true, ◌&&◌, Option, none, some, Text, text, List, [], ◌∷◌, ◌++◌, BTreeMap, get, put, keys,
  if◌then◌else◌, text_eq, Result, ok, err,
}
use better_commerce.Prelude.Results.{map_err, ◌>>=◌}
use better_commerce.Manifest.Types.{Crates, ManifestError, ModuleInstallation, ValidatedManifest}
use better_commerce.Dispatcher.Types.{SqlError}
use better_commerce.Example.Types.{
  ExampleConfiguration, ExampleConfigurationError, ExampleError, ExampleSchema, CreateStatements,
  JsonValues,
}
use better_commerce.Example.Configuration.{parse_configuration, show_configuration_error}
use better_commerce.Example.Migrations.{Migration}
use better_commerce.Example.Module
use better_commerce.Example.Module.{
  ExampleDatabase, ExampleModule, ReadyAnswers, attach_database, close_database, connect,
  database_is_ready, create_module_record,
}
use better_commerce.Composition.Types.{
  ComposedModule, example, Composition, ExampleLabelPort, ExampleCommandPort,
}

abbrev pub example_id : Text
example_id = text "example"

abbrev pub configuration_error : ExampleConfigurationError → ManifestError
configuration_error error = record {
  message = text "module 'example' configuration is invalid: " ++ show_configuration_error error;
}

abbrev pub composition_error : Text → ManifestError
composition_error id = record {
  message = text "module '" ++ (id ++ text "' has no startup composition in this release");
}

abbrev pub composed :
    Result ManifestError ExampleConfiguration → Result ManifestError ComposedModule
composed (ok configuration) = ok (example (Module.new configuration))
composed (err error) = err error

module _ (X : Crates) (from_value : X.Value → Result Text ExampleConfiguration) where
  -- The `match` on the identifier.
  unfoldable pub compose_module : Text → ModuleInstallation X → Result ManifestError ComposedModule
  compose_module id installation =
      if text_eq id example_id
      then composed
          (map_err configuration_error (parse_configuration from_value installation.configuration))
      else err (composition_error id)

  -- The loop, over the modules that are left and those that are composed.
  unfoldable pub compose_rest :
      BTreeMap (ModuleInstallation X)
      → BTreeMap ComposedModule
      → Result ManifestError (BTreeMap ComposedModule)
  compose_rest [] modules = ok modules
  compose_rest ((id, installation) ∷ rest) modules =
      compose_module id installation >>= λ m. compose_rest rest (put id m modules)

  unfoldable pub compose_modules : ValidatedManifest X → Result ManifestError Composition
  compose_modules manifest =
      compose_rest manifest.modules [] >>= λ modules. ok (record { modules = modules })

abbrev pub enabled_module_ids : Composition → List Text
enabled_module_ids c = keys c.modules

unfoldable pub module_of : Text → Composition → Option ComposedModule
module_of id c = get id c.modules

abbrev pub attached_to :
    (Text → Result SqlError (Unit {0}))
    → Text
    → Composition
    → Option ComposedModule
    → Result SqlError (Unit {0}) × Composition
attached_to connect_lazy url c none = (ok tt, c)
attached_to connect_lazy url c (some (example m)) = elim (connect connect_lazy url) [
  | ok d ↦ (ok tt, record { modules = put example_id (example (attach_database d m)) c.modules })
  | err e ↦ (err e, c)
]

-- `attach_example_database`.
unfoldable pub attach_example_database :
    (Text → Result SqlError (Unit {0}))
    → Text
    → Composition
    → Result SqlError (Unit {0}) × Composition
attach_example_database connect_lazy url c =
    attached_to connect_lazy url c (get example_id c.modules)

module _ (expected : List Migration) (answers : Text → ReadyAnswers) where
  unfoldable pub all_ready : BTreeMap ComposedModule → Bool
  all_ready [] = true
  all_ready ((id, example m) ∷ rest) = database_is_ready expected (answers id) m && all_ready rest

  unfoldable pub modules_are_ready : Composition → Bool
  modules_are_ready c = all_ready c.modules

-- `close_databases`: the pools that it closes, in the order of the modules.
unfoldable pub close_all : BTreeMap ComposedModule → List ExampleDatabase
close_all [] = []
close_all ((id, example m) ∷ rest) = close_database m ++ close_all rest

unfoldable pub close_databases : Composition → List ExampleDatabase
close_databases c = close_all c.modules

-- The consumer's use cases.
abbrev pub read_label_of : ExampleLabelPort → Text
read_label_of provider = provider.read_label

abbrev pub create_record_by :
    {State : Type 0} (provider : ExampleCommandPort State)
    → Text
    → State
    → Result provider.Error (Unit {0}) × State
create_record_by provider label s = provider.create_record label s

-- `LocalExampleAdapter`, as the two ports.
abbrev pub label_adapter : ExampleModule → ExampleLabelPort
label_adapter m = record { read_label = Module.label m }

abbrev pub done : {E A : Type 0} → Result E A → Result E (Unit {0})
done (ok a) = ok tt
done (err e) = err e

module _ {Json : Type 0} (J : JsonValues Json) (q : CreateStatements) where
  abbrev pub command_adapter : ExampleModule → ExampleCommandPort (ExampleSchema Json)
  command_adapter m = record {
    Error = ExampleError;
    create_record =
        λ label s. let (result, after) = create_module_record J q label m s in (done result, after);
  }

  abbrev pub create_with :
      Text
      → ExampleSchema Json
      → Option ComposedModule
      → Option (Result ExampleError (Unit {0})) × ExampleSchema Json
  create_with label s none = (none, s)
  create_with label s (some (example m)) =
      let (result, after) = create_record_by (command_adapter m) label s in (some result, after)

  unfoldable pub create_example_record :
      Text
      → Composition
      → ExampleSchema Json
      → Option (Result ExampleError (Unit {0})) × ExampleSchema Json
  create_example_record label c s = create_with label s (module_of example_id c)

abbrev pub label_with : Option ComposedModule → Option Text
label_with none = none
label_with (some (example m)) = some (read_label_of (label_adapter m))

unfoldable pub read_example_label : Composition → Option Text
read_example_label c = label_with (module_of example_id c)
