-- ===== src/Instructions.antt =====
-- packages/instructions/src/index.ts: instructions by scope, and skills.
pub mod Scope
pub mod Documents
pub mod Skills
mod Tests
