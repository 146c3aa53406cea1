-- ===== src/Reconcile/Plan.antt =====
-- The part of `reconcile_with_environment` in core/src/reconcile.rs before its first command.
use better_commerce.Prelude.{
  ℕ, Text, text, [], map, BTreeMap, put, Outcome, returns, ◌==◌, if◌then◌else◌,
}
use better_commerce.Prelude.Formats.{decimal}
use better_commerce.Prelude.Results.{map_err}
use better_commerce.Prelude.Outcomes.{of_result, or_fail, fails_with, or_else, ◌>>=◌, ◌>>◌}
use better_commerce.Manifest.Types.{Crates, LocalDeployment, ManifestError, ValidatedManifest}
use better_commerce.Manifest.Validate.{parse_and_validate, supported_release_metadata}
use better_commerce.Composition.Compose.{compose_modules}
use better_commerce.Reconcile.Types.{Machine, ReconcileError, ResolvedSecrets, ComposeContext}
use better_commerce.Reconcile.Deployment.{
  validate_error, validate_local_deployment, compose_project_name, database_url,
}
use better_commerce.Database.Roles.{scoped_role_names}
use better_commerce.Reconcile.Secrets.{resolve_secrets}

-- What is known when the commands begin.
pub record ReconcilePlan : Type 0 where
  pub installation_id : Text
  pub database_name : Text
  pub http_port : ℕ
  pub context : ComposeContext

-- `manifest_path.to_string_lossy().replace('\\', "/")`.
abbrev pub forward_slashes : Text → Text
forward_slashes = map λ c. if c == 0x5c then 0x2f else c

module _ {X : Crates} (M : Machine X) where
  abbrev pub environment_of : LocalDeployment → Text → ResolvedSecrets → BTreeMap Text
  environment_of local manifest_path secrets =
      let name = local.database_name in
      let (example_role, dispatcher_role, readiness_role) = scoped_role_names M.sha256 name in
      let url = λ (user : Text) (password : Text).
        database_url M.utf8_percent_encode user password (text "postgres") name in
      put (text "READINESS_DATABASE_URL") (url readiness_role secrets.readiness_password) (
        put (text "DISPATCHER_DATABASE_URL") (url dispatcher_role secrets.dispatcher_password) (
          put (text "EXAMPLE_RUNTIME_DATABASE_URL") (url example_role secrets.example_password) (
            put (text "OPERATIONS_DATABASE_URL") (url (text "postgres") secrets.operations_password)
              (put (text "BC_READINESS_PASSWORD") secrets.readiness_password (
                put (text "BC_DISPATCHER_PASSWORD") secrets.dispatcher_password (
                  put (text "BC_EXAMPLE_PASSWORD") secrets.example_password (
                    put (text "BC_OPERATIONS_PASSWORD") secrets.operations_password (
                      put (text "BC_MANIFEST_HOST_PATH") (forward_slashes manifest_path) (
                        put (text "BC_HTTP_PORT") (decimal local.http_port) (
                          put (text "BC_DATABASE_NAME") name
                            (put (text "BC_INSTALLATION_ID") local.installation_id [])))))))))))

  -- The manifest, once its composition has succeeded too.
  unfoldable pub read_manifest : Text → Outcome ReconcileError (ValidatedManifest X)
  read_manifest manifest_path = do
    source ←
        or_fail (M.read_to_string manifest_path)
          (validate_error (text "could not read manifest file"))
    metadata ←
        fails_with (λ (e : ManifestError). validate_error e.message) (supported_release_metadata X)
    validated ←
        fails_with (λ (_ : ManifestError). validate_error (text "manifest is invalid"))
          (parse_and_validate X M.from_str source metadata)
    composition ← of_result (
        map_err {F = ReconcileError} (λ e. validate_error e.message)
          (compose_modules X M.from_value validated))
    returns validated

  unfoldable pub plan_local : Text → LocalDeployment → Outcome ReconcileError ReconcilePlan
  plan_local manifest_path local = do
    of_result (validate_local_deployment local)
    secrets ← of_result (resolve_secrets M local (or_else (M.parent manifest_path) (text ".")))
    compose_file ←
        or_fail (M.canonicalize (M.join M.cargo_manifest_dir (text "../deploy/compose.yaml")))
          (record { phase = text "plan"; message = text "Compose definition is unavailable" })
    returns (record {
      installation_id = local.installation_id;
      database_name = local.database_name;
      http_port = local.http_port;
      context = record {
        file = compose_file;
        project = compose_project_name M.sha256 local.installation_id;
        environment = environment_of local manifest_path secrets;
      };
    })

  unfoldable pub plan : Text → Outcome ReconcileError ReconcilePlan
  plan path = do
    manifest_path ←
        or_fail (M.canonicalize path) (validate_error (text "could not read manifest file"))
    validated ← read_manifest manifest_path
    local ←
        or_fail validated.local
          (validate_error (text "manifest is missing local deployment configuration"))
    plan_local manifest_path local
