-- ===== src/Programs/Samples.antt =====
-- A sample host for the programs: the installation of the samples of Database.
use better_commerce.Prelude.{Option, some, none, Text, text, ok, text_eq, if◌then◌else◌}
use better_commerce.Manifest.Samples.{crates, demo}
use better_commerce.Example.Samples.{from_value}
use better_commerce.Database.Samples.{
  urls, sha256, operations_url, example_identity, dispatcher_identity, ready_identity,
}
use better_commerce.Programs.Types.{Host}

abbrev pub get_env : Text → Option Text
get_env name =
    if text_eq name (text "EXAMPLE_RUNTIME_DATABASE_URL")
    then some example_identity.role
    else (if text_eq name (text "DISPATCHER_DATABASE_URL")
        then some dispatcher_identity.role
        else (if text_eq name (text "READINESS_DATABASE_URL")
            then some ready_identity.role
            else (if text_eq name (text "OPERATIONS_DATABASE_URL")
                then some operations_url
                else none)))

abbrev pub host : Host crates
host = record {
  get_env = get_env;
  read_to_string = λ path. some (text "release: 0.1.0");
  from_str = λ source. ok demo;
  from_value = from_value;
  connect_lazy = λ url. ok tt;
  listen = λ port. some tt;
  urls = urls;
  sha256 = sha256;
}
