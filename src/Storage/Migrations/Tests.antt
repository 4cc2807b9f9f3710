-- ===== src/Storage/Migrations/Tests.antt =====
-- Two migrations, applied twice.
use benchhand.Prelude.{String, List, [], ◌∷◌, ◌≡◌, refl, Result, ok}
use benchhand.Contracts.Schema.{Thrown}
use benchhand.Storage.Migrations.{SqliteMigration, Database, apply_migrations}
use benchhand.Storage.Migrations.Rerun.{apply_migrations_rerun}

abbrev log_sql : String → List String → Result Thrown (Unit {0}) × List String
log_sql sql tables = (ok tt, sql ∷ tables)

abbrev two_migrations : List SqliteMigration
two_migrations = record { id = "1"; sql = "CREATE a" } ∷ record { id = "2"; sql = "CREATE b" } ∷ []

abbrev fresh_database : Database (List String)
fresh_database = record { tables = []; schema_migrations = [] }

abbrev migrated_database : Database (List String)
migrated_database = record {
  tables = "CREATE b" ∷ "CREATE a" ∷ [];
  schema_migrations =
      record { id = "1"; checksum = "CREATE a" } ∷ record { id = "2"; checksum = "CREATE b" } ∷ [];
}

migrates :
    apply_migrations log_sql (λ sql. sql) two_migrations fresh_database
    ≡ (ok (record { applied = "1" ∷ "2" ∷ []; skipped = [] }), migrated_database)
unfolding apply_migrations
migrates = refl

apply_migrations_rerun_example :
    apply_migrations log_sql (λ sql. sql) two_migrations migrated_database
    ≡ (ok (record { applied = []; skipped = "1" ∷ "2" ∷ [] }), migrated_database)
apply_migrations_rerun_example =
    apply_migrations_rerun log_sql (λ sql. sql) two_migrations
      (record { applied = "1" ∷ "2" ∷ []; skipped = [] }) fresh_database migrated_database migrates
