-- ===== src/Storage/Migrations/Rerun.antt =====
-- `applyMigrations`, called a second time.

use benchhand.Prelude.{
  String, true, false, Option, none, some, List, [], ◌∷◌, ◌++◌, ◌≡◌, refl, ◌∙◌, map, append_assoc,
  append-nil, str_eq, str_eq_refl, All, arith, Result, ok, err, Bool-cases, inl, inr,
}
use benchhand.Contracts.Schema.{Thrown}
use benchhand.Storage.Table.{transaction}
use benchhand.Storage.Migrations.{
  SqliteMigration, MigrationResult, MigrationRow, Database, row_of, with_row, migrate, add_applied,
  apply_found, apply_one, then_apply, apply_from, apply_migrations,
}

row_of-append :
    (id : String) (rows more : List MigrationRow) (row : MigrationRow)
    → row_of id rows ≡ some row
    → row_of id (rows ++ more) ≡ some row
row_of-append id [] more row h = absurd cc
row_of-append id (r ∷ rows) more row h = ground (arith, row_of-append id rows more row)

row_of-append_none :
    (id : String) (rows more : List MigrationRow)
    → row_of id rows ≡ none
    → row_of id (rows ++ more) ≡ row_of id more
row_of-append_none id [] more h = refl
row_of-append_none id (r ∷ rows) more h = ground (arith, row_of-append_none id rows more)

module _ {S : Type 0} (exec : String → S → Result Thrown (Unit {0}) × S)
    (sha256 : String → String) where
  record IsRecorded (db : Database S) (m : SqliteMigration) : Type 0 where
    named : str_eq m.id "" ≡ false
    row : MigrationRow
    found : row_of m.id db.schema_migrations ≡ some row
    same : str_eq row.checksum (sha256 m.sql) ≡ true

  -- Recorded rows stay.
  Grows : Database S → Database S → Type 0
  Grows db db' =
      (id : String) (row : MigrationRow)
      → row_of id db.schema_migrations ≡ some row
      → row_of id db'.schema_migrations ≡ some row

  applied-Grows :
      (m : SqliteMigration) (result result' : MigrationResult) (db db' : Database S)
      (p : Result Thrown (Unit {0}) × S)
      → str_eq m.id "" ≡ false
      → row_of m.id db.schema_migrations ≡ none
      → add_applied exec sha256 m.id result
          (transaction (λ (d : Database S). with_row exec sha256 m d.schema_migrations p) db)
        ≡ (ok result', db')
      → Grows db db' × IsRecorded db' m
  unfolding add_applied transaction with_row Grows
  applied-Grows m result result' db db' (err e, tables) named free h = absurd (ground arith)
  applied-Grows m result result' db db' (ok _, tables) named free h =
      let same : record {
        tables = tables;
        schema_migrations =
            db.schema_migrations ++ (record { id = m.id; checksum = sha256 m.sql }) ∷ [];
      }
          ≡ db' =
        ground arith in
      rw (← same) (
        (λ id row found. row_of-append id db.schema_migrations _ row found),
        record {
          named = named;
          row = record { id = m.id; checksum = sha256 m.sql };
          found = row_of-append_none m.id db.schema_migrations _ free ∙ rw (str_eq_refl m.id);
          same = str_eq_refl (sha256 m.sql);
        },
      )

  found-Grows :
      (m : SqliteMigration) (result result' : MigrationResult) (db db' : Database S)
      (o : Option MigrationRow)
      → str_eq m.id "" ≡ false
      → row_of m.id db.schema_migrations ≡ o
      → apply_found exec sha256 m result o db ≡ (ok result', db')
      → Grows db db' × IsRecorded db' m
  unfolding apply_found migrate Grows
  found-Grows m result result' db db' none named e h =
      applied-Grows m result result' db db' (exec m.sql db.tables) named e h
  found-Grows m result result' db db' (some row) named e h =
      let same : db ≡ db' = ground arith in
      let matches : str_eq row.checksum (sha256 m.sql) ≡ true = ground arith in
      rw (← same)
        ((λ id r found. found), record { named = named; row = row; found = e; same = matches })

  apply_one-Grows :
      (m : SqliteMigration) (result result' : MigrationResult) (db db' : Database S)
      → apply_one exec sha256 m result db ≡ (ok result', db')
      → Grows db db' × IsRecorded db' m
  unfolding apply_one
  apply_one-Grows m result result' db db' h = elim (Bool-cases (str_eq m.id "")) [
    | inl empty ↦ absurd (ground arith)
    | inr named ↦ found-Grows m result result' db db' _ named refl (rw named at h)
  ]

  IsRecorded-later :
      (db db' : Database S) (m : SqliteMigration)
      → Grows db db'
      → IsRecorded db m
      → IsRecorded db' m
  unfolding Grows
  IsRecorded-later db db' m g r = record {
    named = r.named;
    row = r.row;
    found = g m.id r.row r.found;
    same = r.same;
  }

  then_apply-Grows :
      (m : SqliteMigration) (result' : MigrationResult) (db db' : Database S)
      (p : Result Thrown MigrationResult × Database S)
      (later : MigrationResult → Database S → Result Thrown MigrationResult × Database S)
      (All_later : Database S → Type 0)
      → ((r : MigrationResult) (now : Database S)
          → p ≡ (ok r, now)
          → Grows db now × IsRecorded now m)
      → ((r : MigrationResult) (now : Database S)
          → later r now ≡ (ok result', db')
          → Grows now db' × All_later db')
      → then_apply exec sha256 later p ≡ (ok result', db')
      → Grows db db' × (IsRecorded db' m × All_later db')
  unfolding then_apply Grows
  then_apply-Grows m result' db db' (err e, now) later All_later one rest h = absurd (ground arith)
  then_apply-Grows m result' db db' (ok r, now) later All_later one rest h =
      let (grows, recorded) = one r now refl in
      let (grows', recorded') = rest r now h in
      (
        λ id row found. grows' id row (grows id row found),
        (IsRecorded-later now db' m grows' recorded, recorded'),
      )

  apply_from-Grows :
      (ms : List SqliteMigration) (result result' : MigrationResult) (db db' : Database S)
      → apply_from exec sha256 ms result db ≡ (ok result', db')
      → Grows db db' × All (IsRecorded db') ms
  unfolding apply_from Grows
  apply_from-Grows [] result result' db db' h =
      let same : db ≡ db' = ground arith in (λ id row found. rw (← same) found, tt)
  apply_from-Grows (m ∷ ms) result result' db db' h =
      then_apply-Grows m result' db db' (apply_one exec sha256 m result db)
        (λ later now. apply_from exec sha256 ms later now) (λ now. All (IsRecorded now) ms)
        (λ r now e. apply_one-Grows m result r db now e)
        (λ r now e. apply_from-Grows ms r result' now db' e) h

  skipped_again :
      (ms : List SqliteMigration) (result : MigrationResult) (db : Database S)
      → All (IsRecorded db) ms
      → apply_from exec sha256 ms result db
        ≡ (ok (record result { skipped = result.skipped ++ map (λ m. m.id) ms }), db)
  unfolding apply_from apply_one apply_found then_apply
  skipped_again [] result db h = rw append-nil
  skipped_again (m ∷ ms) result db (r, h) =
      rw (r.named, r.found, r.same, skipped_again ms _ db h) (rw append_assoc)

  -- Migrations that were applied without an error are skipped, all of them and in order, when they
  -- are applied again: nothing is run and the database stays the same.
  pub apply_migrations_rerun :
      (migrations : List SqliteMigration) (result : MigrationResult) (db db' : Database S)
      → apply_migrations exec sha256 migrations db ≡ (ok result, db')
      → apply_migrations exec sha256 migrations db'
        ≡ (ok (record { applied = []; skipped = map (λ m. m.id) migrations }), db')
  unfolding apply_migrations
  apply_migrations_rerun migrations result db db' h =
      skipped_again migrations _ db' (apply_from-Grows migrations _ result db db' h).1
