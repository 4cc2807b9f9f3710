-- ===== src/Storage.antt =====
-- packages/storage/src/index.ts: the tables, their statements, the transaction and the migrations.
pub mod Table
pub mod Migrations
