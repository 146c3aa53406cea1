-- ===== src/Database/Roles.antt =====
-- `scoped_role_names` and `quoted_role` of core/src/database.rs.
use better_commerce.Prelude.{
  ℕ, ◌+◌, not, ◌||◌, Text, text, List, ◌++◌, map, Result, ok, err, bytes, ◌==◌, if◌then◌else◌,
}
use better_commerce.Prelude.Chars.{is_ascii_alphanumeric, is_ascii_uppercase, all, take, is_empty}
use better_commerce.Prelude.Formats.{hex_bytes}

abbrev pub slug_char : ℕ → ℕ
slug_char c = if is_ascii_alphanumeric c then (if is_ascii_uppercase c then c + 32 else c) else 0x5f

abbrev pub slug : Text → Text
slug name = map slug_char (take 12 name)

module _ (sha256 : List ℕ → List ℕ) where
  abbrev pub fingerprint : Text → Text
  fingerprint name = hex_bytes (take 16 (sha256 (bytes name)))

  abbrev pub role_name : Text → Text → Text
  role_name prefix name = prefix ++ (slug name ++ (text "_" ++ fingerprint name))

  unfoldable pub scoped_role_names : Text → Text × Text × Text
  scoped_role_names name = (
    role_name (text "bc_example_") name,
    role_name (text "bc_dispatch_") name,
    role_name (text "bc_ready_") name,
  )

-- `quoted_role` of core/src/database.rs.
unfoldable pub quoted_role : Text → Result Text Text
quoted_role role =
    if is_empty role || not (all (λ b. is_ascii_alphanumeric b || b == 0x5f) (bytes role))
    then err (text "database role name must contain only ASCII letters, digits, or underscores")
    else ok (text "\"" ++ (role ++ text "\""))
