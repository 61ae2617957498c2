-- ===== src/Storage/Formats.antt =====
-- src/storage.rs: `FormatMigration`, its table, and `format_migration_path`.
use aomori.Prelude.{
  ℕ, zero, suc, ◌≡◌, String, true, false, List, [], ◌∷◌, ◌++◌, ◌==◌, leb, arith, if◌then◌else◌,
}
use aomori.Result.{
  Result, ok, err, ◌>>=◌, ◌>>◌, refuse_if, out_of_fuel, unsupported_format_version,
  ambiguous_migrations, invalid_migration,
}

pub record FormatMigration : Type 0 where
  pub from_version : ℕ
  pub to_version : ℕ
  pub name : String

abbrev pub legacy_format_version : ℕ
legacy_format_version = 1

abbrev pub format_version : ℕ
format_version = 2

abbrev pub format_migrations : List FormatMigration
format_migrations =
    record { from_version = 1; to_version = 2; name = "snapshot_format_1_to_2" } ∷ []

-- `.filter(|migration| migration.from_version == version)`
abbrev pub migrations_from : ℕ → List FormatMigration → List FormatMigration
migrations_from version [] = []
migrations_from version (m ∷ ms) =
    if m.from_version == version then m ∷ migrations_from version ms else migrations_from version ms

-- The only migration of those found, which must go up.
abbrev the_migration : ℕ → List FormatMigration → Result FormatMigration
the_migration version [] = err unsupported_format_version
the_migration version (m ∷ n ∷ ms) = err ambiguous_migrations
the_migration version (m ∷ []) = refuse_if (leb m.to_version version) invalid_migration >> ok m

-- The `while` loop; `fuel` bounds the rounds.
unfoldable pub migration_path :
    List FormatMigration → ℕ → ℕ → ℕ → List FormatMigration → Result (List FormatMigration)
migration_path table zero version target path = err out_of_fuel
migration_path table (suc fuel) version target path = elim (version == target) [
  | true ↦ ok path
  | false ↦ the_migration version (migrations_from version table) >>= λ m.
      migration_path table fuel m.to_version target (path ++ m ∷ [])
]

-- One round for each migration of the table, and one to see the end.
unfoldable pub format_migration_path : ℕ → ℕ → Result (List FormatMigration)
unfolding migration_path
format_migration_path from target = migration_path format_migrations 2 from target []

-- From every version the path to the current one ends: it is empty for the current version, the one
-- migration for the version before it, and an error that names the version for all others.
pub format_migration_path-cases :
    (from : ℕ)
    → format_migration_path from format_version ≡ (
        if from == 2
        then ok []
        else if from == 1
        then ok format_migrations
        else err unsupported_format_version)
unfolding format_migration_path
format_migration_path-cases from = ground arith
