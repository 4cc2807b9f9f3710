-- ===== src/Storage/Migrations.antt =====
-- `SqliteDatabase.applyMigrations` of packages/storage/src/index.ts. The SQL of a migration acts on
-- the tables `S` apart from `schema_migrations`; running it and hashing it are parameters.
pub mod Rerun
mod Tests
use Prim.Native.String
use benchhand.Prelude.{
  ℕ, String, Bool, true, false, Option, none, some, List, [], ◌∷◌, ◌++◌, ◌≡◌, refl, sym, ap, ◌∙◌,
  map, append_assoc, append-nil, if◌then◌else◌, not, str_eq, str_eq_refl, find, All, arith, Result,
  ok, err, Exec, Bool-cases, Option-cases, inl, inr,
}
use benchhand.Contracts.Schema.{Thrown, error_object}
use benchhand.Storage.Table.{transaction}

pub record SqliteMigration : Type 0 where
  pub id : String
  pub sql : String

pub record MigrationResult : Type 0 where
  pub applied : List String
  pub skipped : List String

-- A row of `schema_migrations`
pub record MigrationRow : Type 0 where
  pub id : String
  pub checksum : String

pub record Database (S : Type 0) : Type 0 where
  pub tables : S
  pub schema_migrations : List MigrationRow

abbrev pub row_of : String → List MigrationRow → Option MigrationRow
row_of id rows = find (λ row. str_eq row.id id) rows

module _ {S : Type 0} (exec : String → Exec S Thrown (Unit {0})) (sha256 : String → String) where
  with_row :
      SqliteMigration
      → List MigrationRow
      → Result Thrown (Unit {0}) × S
      → Result Thrown (Unit {0}) × Database S
  with_row m rows (err e, tables) = (err e, record { tables = tables; schema_migrations = rows })
  with_row m rows (ok _, tables) = (
    ok tt,
    record {
      tables = tables;
      schema_migrations = rows ++ (record { id = m.id; checksum = sha256 m.sql }) ∷ [];
    },
  )

  -- The transaction of one migration: its SQL, and then its row.
  migrate : SqliteMigration → Exec (Database S) Thrown (Unit {0})
  unfolding with_row transaction
  migrate m =
      transaction (λ (db : Database S). with_row m db.schema_migrations (exec m.sql db.tables))

  add_applied :
      String
      → MigrationResult
      → Result Thrown (Unit {0}) × Database S
      → Result Thrown MigrationResult × Database S
  add_applied id result (err e, db) = (err e, db)
  add_applied id result (ok _, db) =
      (ok (record result { applied = result.applied ++ id ∷ [] }), db)

  apply_found :
      SqliteMigration
      → MigrationResult
      → Option MigrationRow
      → Exec (Database S) Thrown MigrationResult
  unfolding migrate add_applied
  apply_found m result none db = add_applied m.id result (migrate m db)
  apply_found m result (some existing) db =
      if not (str_eq existing.checksum (sha256 m.sql))
      then (err (error_object "Error" (String.◌++◌ "migration checksum mismatch for " m.id)), db)
      else (ok (record result { skipped = result.skipped ++ m.id ∷ [] }), db)

  apply_one : SqliteMigration → MigrationResult → Exec (Database S) Thrown MigrationResult
  unfolding apply_found
  apply_one m result db =
      if str_eq m.id ""
      then (err (error_object "TypeError" "migration id must not be empty"), db)
      else apply_found m result (row_of m.id db.schema_migrations) db

  then_apply :
      (MigrationResult → Exec (Database S) Thrown MigrationResult)
      → Result Thrown MigrationResult × Database S
      → Result Thrown MigrationResult × Database S
  then_apply later (err e, db) = (err e, db)
  then_apply later (ok result, db) = later result db

  -- The loop
  apply_from : List SqliteMigration → MigrationResult → Exec (Database S) Thrown MigrationResult
  unfolding apply_one then_apply
  apply_from [] result db = (ok result, db)
  apply_from (m ∷ ms) result db =
      then_apply (λ later db'. apply_from ms later db') (apply_one m result db)

  unfoldable pub apply_migrations : List SqliteMigration → Exec (Database S) Thrown MigrationResult
  unfolding apply_from
  apply_migrations migrations = apply_from migrations (record { applied = []; skipped = [] })
