-- ===== src/Reconcile/Deployment.antt =====
-- `validate_local_deployment`, `compose_project_name` and `database_url` of core/src/reconcile.rs.
use better_commerce.Prelude.{
  ℕ, Bool, false, not, ◌&&◌, ◌||◌, Text, text, List, [], ◌∷◌, ◌++◌, Result, ok, err, bytes, length,
  leb, ◌==◌, if◌then◌else◌,
}
use better_commerce.Prelude.Formats.{hex_bytes}
use better_commerce.Manifest.Types.{LocalDeployment}
use better_commerce.Prelude.Chars.{
  is_ascii_lowercase, is_ascii_digit, all, take, trim_start_matches, trim_end_matches, is_empty,
}
use better_commerce.Reconcile.Types.{ReconcileError}

-- `as_bytes()[0]` is read only where the text is not empty.
abbrev pub first_is : (ℕ → Bool) → List ℕ → Bool
first_is test [] = false
first_is test (b ∷ bs) = test b

abbrev pub is_installation_byte : ℕ → Bool
is_installation_byte b = is_ascii_lowercase b || (is_ascii_digit b || b == 0x2d)

abbrev pub is_database_byte : ℕ → Bool
is_database_byte b = is_ascii_lowercase b || (is_ascii_digit b || b == 0x5f)

unfoldable pub valid_installation : Text → Bool
valid_installation id =
    not (is_empty id) && (leb (length (bytes id)) 40 && all is_installation_byte (bytes id))

unfoldable pub valid_database : Text → Bool
valid_database name =
    not (is_empty name)
    && (leb (length (bytes name)) 63
        && (all is_database_byte (bytes name) && first_is is_ascii_lowercase (bytes name)))

abbrev pub validate_error : Text → ReconcileError
validate_error message = record { phase = text "validate"; message = message }

unfoldable pub validate_local_deployment : LocalDeployment → Result ReconcileError (Unit {0})
validate_local_deployment local =
    if not (valid_installation local.installation_id)
      || (not (valid_database local.database_name) || local.http_port == 0)
    then err (validate_error (text "local installation ID, database name, or HTTP port is invalid"))
    else ok tt

module _ (sha256 : List ℕ → List ℕ) where
  unfoldable pub compose_project_name : Text → Text
  compose_project_name id =
      text "bc-"
      ++ (trim_end_matches (λ c. c == 0x2d) (trim_start_matches 0x2d id)
          ++ (text "-" ++ hex_bytes (take 8 (sha256 (bytes id)))))

unfoldable pub database_url : (Text → Text) → Text → Text → Text → Text → Text
database_url utf8_percent_encode user password host database =
    text "postgres://"
    ++ (user
        ++ (text ":"
            ++ (utf8_percent_encode password
                ++ (text "@" ++ (host ++ (text ":5432/" ++ database))))))
