-- ===== src/Workspace.antt =====
-- packages/workspace/src: the worktrees of Git, git-worktree.ts, and the registry of workspaces,
-- index.ts.
pub mod Checkouts
pub mod Directories
pub mod Git
pub mod Invariants
pub mod Porcelain
pub mod Registry
pub mod Reopened
pub mod Worktrees
mod Tests
