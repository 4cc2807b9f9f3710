-- ===== src/Operations.antt =====
-- packages/operations/src/index.ts: the operation journal. Operations/Journal holds the class
-- `OperationJournal`, and its children the laws of it.
pub mod Record
pub mod Journal
