-- ===== src/Programs/Start.antt =====
-- How core/src/main.rs and core/src/bin/migrate.rs begin: the manifest and its composition.
use better_commerce.Prelude.{Text, text, Outcome}
use better_commerce.Prelude.Results.{map_err}
use better_commerce.Prelude.Outcomes.{of_result, or_fail, fails_with, or_else, ◌>>=◌}
use better_commerce.Manifest.Types.{Crates, ValidatedManifest}
use better_commerce.Manifest.Validate.{parse_and_validate, supported_release_metadata}
use better_commerce.Composition.Types.{Composition}
use better_commerce.Composition.Compose.{compose_modules}
use better_commerce.Programs.Types.{ProgramError, io_error, var_error, invalid_manifest, Host}

module _ {X : Crates} (H : Host X) where
  abbrev pub var : Text → Outcome ProgramError Text
  var name = or_fail (H.get_env name) (var_error name)

  -- The file that `MANIFEST_PATH` names.
  abbrev pub manifest_path : Text
  manifest_path = or_else (H.get_env (text "MANIFEST_PATH")) (text "manifest.yaml")

  unfoldable pub load_manifest : Outcome ProgramError (ValidatedManifest X)
  load_manifest = do
    source ← or_fail (H.read_to_string manifest_path) io_error
    metadata ← fails_with invalid_manifest (supported_release_metadata X)
    fails_with invalid_manifest (parse_and_validate X H.from_str source metadata)

  unfoldable pub start : Outcome ProgramError Composition
  start = do
    manifest ← load_manifest
    of_result (map_err invalid_manifest (compose_modules X H.from_value manifest))
