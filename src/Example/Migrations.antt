-- ===== src/Example/Migrations.antt =====
-- `ExampleDatabase::migration_state_is_current` of modules/example/src/database.rs. The embedded
-- migrations, which a build macro collects, are an argument.
use better_commerce.Prelude.{
  ◌≡◌, ◌↔◌, ℕ, ℤ, Bool, true, ◌&&◌, List, [], ◌∷◌, map, Result, ok, arith, ◌==◌, int_eq, int_eq_iff,
  text_eq, text_eq_iff, length,
}
use better_commerce.Prelude.Results.{◌>>=◌}
use better_commerce.Dispatcher.Types.{SqlError}

-- A row of `_sqlx_migrations`.
pub record AppliedMigration : Type 0 where
  pub version : ℤ
  pub success : Bool
  pub checksum : List ℕ

-- `sqlx::migrate::Migration`, as far as the code reads it.
pub record Migration : Type 0 where
  pub version : ℤ
  pub checksum : List ℕ

-- Slices of bytes are compared like texts.
abbrev pub is_applied : AppliedMigration → Migration → Bool
is_applied row expected =
    int_eq row.version expected.version && (row.success && text_eq row.checksum expected.checksum)

-- `rows.iter().zip(migrations.iter()).all(..)`.
unfoldable pub all_applied : List AppliedMigration → List Migration → Bool
all_applied [] expected = true
all_applied (row ∷ rows) [] = true
all_applied (row ∷ rows) (m ∷ expected) = is_applied row m && all_applied rows expected

unfoldable pub is_current : List AppliedMigration → List Migration → Bool
is_current rows expected = length rows == length expected && all_applied rows expected

-- `SELECT version, success, checksum .. ORDER BY version` gives the rows or an error.
unfoldable pub migration_state_is_current :
    List Migration → Result SqlError (List AppliedMigration) → Result SqlError Bool
migration_state_is_current expected query = do rows ← query; ok (is_current rows expected)

abbrev pub applied : Migration → AppliedMigration
applied m = record { version = m.version; success = true; checksum = m.checksum }

is_applied_iff :
    (row : AppliedMigration) (m : Migration) → (is_applied row m ≡ true) ↔ (row ≡ applied m)
is_applied_iff row m =
    ground (arith, int_eq_iff row.version m.version, text_eq_iff row.checksum m.checksum)

-- The migrations are current exactly if the rows are those of the embedded migrations, all applied.
pub is_current_iff :
    (rows : List AppliedMigration) (expected : List Migration)
    → (is_current rows expected ≡ true) ↔ (rows ≡ map applied expected)
unfolding is_current all_applied
is_current_iff [] [] = ground arith
is_current_iff [] (m ∷ expected) = ground arith
is_current_iff (row ∷ rows) [] = ground arith
is_current_iff (row ∷ rows) (m ∷ expected) =
    ground (arith, is_applied_iff row m, is_current_iff rows expected)
