-- ===== src/Composition/Tests.antt =====
-- The composition of a demo installation, and the theorems of core/src/composition.rs about it.
use better_commerce.Prelude.{
  ◌≡◌, refl, ◌⊎◌, some, text, [], ◌∷◌, ok, err, put, get, contains_key, text_eq, text_lt,
}
use better_commerce.Manifest.Types.{ModuleInstallation, ValidatedManifest}
use better_commerce.Manifest.Samples.{crates, release, metadata, demo}
use better_commerce.Manifest.Validate.Accepts.{accepted}
use better_commerce.Manifest.Tests.{supported, demo-accepted}
use better_commerce.Example.Types.{ExampleConfiguration, ExampleConfigurationError}
use better_commerce.Example.Configuration.{parse_configuration, is_whitespace, trim_start, trim_end}
use better_commerce.Example.Module
use better_commerce.Example.Samples.{from_value}
use better_commerce.Composition.Types.{Composition, example}
use better_commerce.Composition.Compose.{
  example_id, configuration_error, compose_module, compose_rest, compose_modules,
  read_example_label, read_label_of,
}
use better_commerce.Composition.Transport.{from_response, protobuf_adapter}
use better_commerce.Composition.Labels.{HasUniqueKeys, compose_modules-label}
use better_commerce.Composition.Supported.{compose_modules_supported}

program : Unit {0}
unfolding compose_modules compose_rest compose_module parse_configuration is_whitespace trim_start
    trim_end put get contains_key text_eq text_lt
program = tt

abbrev installation : ModuleInstallation crates
installation = record { version = release; configuration = text "label: Demo" }

abbrev valid : ValidatedManifest crates
valid = accepted crates metadata demo

abbrev composition : Composition
composition = record {
  modules = (example_id, example (Module.new (record { label = text "label: Demo" }))) ∷ [];
}

composed : compose_modules crates from_value valid ≡ ok composition
unfolding program
composed = refl

unique : HasUniqueKeys valid.modules
unfolding program
unique = (refl, tt)

installed : get example_id valid.modules ≡ some installation
unfolding program
installed = refl

compose_modules-label_example :
    (c : ExampleConfiguration) × (parse_configuration from_value installation.configuration ≡ ok c)
    × (read_example_label composition ≡ some c.label)
compose_modules-label_example =
    compose_modules-label crates from_value valid composition installation unique composed installed

compose_modules_supported_example :
    ((c : Composition) × (compose_modules crates from_value valid ≡ ok c))
    ⊎ ((error : ExampleConfigurationError) × (compose_modules crates from_value valid
          ≡ err (configuration_error error)))
compose_modules_supported_example =
    compose_modules_supported crates from_value demo valid supported demo-accepted

-- The test of modules/example-transport/src/lib.rs.
translated :
    read_label_of
      (protobuf_adapter (from_response (record { label = text "Example over transport" })))
    ≡ text "Example over transport"
translated = refl
