-- ===== src/Contracts.antt =====
-- The wire contracts, packages/contracts/src/contracts.ts and ids.ts.
pub mod Value
pub mod Schema
pub mod Objects
pub mod Check
mod Tests
