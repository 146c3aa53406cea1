-- ===== src/Reconcile/Secrets.antt =====
-- `ResolvedSecrets::resolve` and `resolve_secrets` of core/src/reconcile.rs.
use better_commerce.Prelude.{
  Bool, not, ◌||◌, ◌&&◌, Text, text, Result, ok, bytes, ◌==◌, if◌then◌else◌,
}
use better_commerce.Prelude.Results.{ok_or, ensure, ◌>>=◌, ◌>>◌}
use better_commerce.Manifest.Types.{Crates, LocalDeployment, SecretReference, environment, file}
use better_commerce.Reconcile.Types.{Machine, ReconcileError, ResolvedSecrets}
use better_commerce.Prelude.Chars.{all, is_ascii_alphanumeric, trim_end_matches, is_empty}
use better_commerce.Reconcile.Deployment.{validate_error}

module _ {X : Crates} (M : Machine X) where
  abbrev pub valid_name : Text → Bool
  valid_name env = not (is_empty env) && all (λ b. is_ascii_alphanumeric b || b == 0x5f) (bytes env)

  abbrev pub secret_path : Text → Text → Text
  secret_path manifest_dir path = if M.is_absolute path then path else M.join manifest_dir path

  -- The `match` on the reference.
  unfoldable pub secret_value : SecretReference → Text → Result ReconcileError Text
  secret_value (environment env) manifest_dir = do
    ensure (valid_name env) (validate_error (text "secret environment reference is invalid"))
    ok_or (M.get_env env)
        (validate_error (text "required secret environment variable is unavailable"))
  secret_value (file path) manifest_dir = do
    content ←
        ok_or (M.read_to_string (secret_path manifest_dir path))
          (validate_error (text "required secret file is unavailable"))
    ok (trim_end_matches (λ c. c == 0xd || c == 0xa) content)

  unfoldable pub resolve : SecretReference → Text → Result ReconcileError Text
  resolve reference manifest_dir = do
    value ← secret_value reference manifest_dir
    ensure (not (is_empty value)) (validate_error (text "resolved secret must not be empty"))
    ok value

  unfoldable pub resolve_secrets : LocalDeployment → Text → Result ReconcileError ResolvedSecrets
  resolve_secrets local manifest_dir = do
    operations ← resolve local.secrets.operations_password manifest_dir
    example ← resolve local.secrets.example_password manifest_dir
    dispatcher ← resolve local.secrets.dispatcher_password manifest_dir
    readiness ← resolve local.secrets.readiness_password manifest_dir
    ok (record {
      operations_password = operations;
      example_password = example;
      dispatcher_password = dispatcher;
      readiness_password = readiness;
    })
