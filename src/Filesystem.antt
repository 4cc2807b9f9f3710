-- ===== src/Filesystem.antt =====
-- packages/filesystem/src/index.ts: the workspace filesystem service, one module for each part.
pub mod Errors
pub mod Path
pub mod Patch
pub mod Listing
pub mod Write
pub mod PatchFile
pub mod Search
mod Tests
