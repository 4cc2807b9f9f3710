-- ===== src/Workspace/Worktrees/Known.antt =====
-- What `#openWorktree` of packages/workspace/src/index.ts does before it makes a worktree: the
-- checks of its source, and a worktree that is registered already. That `parseEntityId` refuses an
-- empty id is left out: the ids that are stored are not empty.
use benchhand.Prelude.{
  ℕ, suc, Bool, ◌&&◌, Option, some, ◌∷◌, ◌++◌, ◌==◌, if◌then◌else◌, find, take, Result, ok, err,
  ◌>>=◌, ◌>>◌, throw_if, or_throw, Exec,
}
use benchhand.Prelude.Text.{Text, codes}
use benchhand.Contracts.Value.{Value}
use benchhand.Contracts.Schema.{WorkspaceStatus, available}
use benchhand.Storage.Table.{update_where, count_where, transaction}
use benchhand.Workspace.Directories.{
  PathFault, RegistryFailure, registry_error, fault, filesystem_identity_from_stats,
  resolve_workspace_directory, find_repo_root, finished_loop, inspect_persisted_workspace_path,
  canonicalize_potential_path, is_same_or_descendant_path,
}
use benchhand.Workspace.Registry.{
  WorkspaceRow, ManagedWorktreeRow, ManagedStatus, active, cleanup_required, cleanup_intent,
  Registry, has_workspace_id, has_ownership_key, is_active, append_worktree_journal,
}
use benchhand.Workspace.Checkouts.{RegistryContext, read_workspace}
use benchhand.Workspace.Worktrees.{
  ManagedWorktreeRegistration, GitFailure, git_failure, Look, required,
}

-- The awaits during which other calls can change the tables.
pub data Moment : Type 0 where
  preparing inspecting checking creating : Moment

pub record Surroundings : Type 0 where
  pub digest : Text → Text
  pub resolve_git_commit : (repo base_ref : Text) → Result GitFailure Text
  pub read_local_branch_commit : (repo branch : Text) → Result GitFailure (Option Text)
  pub create_locked_worktree : ManagedWorktreeRegistration → Result RegistryFailure (Unit {0})
  pub others : Moment → Registry → Registry
  pub occupied_look : Look
  pub waiting_looks : ℕ → Look
  pub failed_look : Look
  pub created_look : Look

-- The first twenty digits of the SHA-256 of both.
unfoldable pub worktree_ownership_key : (digest : Text → Text) → (identity commit : Text) → Text
worktree_ownership_key digest identity commit = take 20 (digest (identity ++ 0 ∷ commit))

thrown_fault : {A : Type 0} → Result PathFault A → Result RegistryFailure A
thrown_fault (err e) = err (fault e)
thrown_fault (ok a) = ok a

from_git : {A : Type 0} → Text → Result GitFailure A → Result RegistryFailure A
unfolding git_failure
from_git path (err e) = err (git_failure path e)
from_git path (ok a) = ok a

module _ (context : RegistryContext) (around : Surroundings) where
  -- What comes before the tables are read, and the root of the managed worktrees.
  unfoldable pub prepare_registration :
      (requested base_ref : Text) → Result RegistryFailure (ManagedWorktreeRegistration × Text)
  unfolding resolve_workspace_directory find_repo_root finished_loop canonicalize_potential_path
      is_same_or_descendant_path thrown_fault from_git worktree_ownership_key
      filesystem_identity_from_stats
  prepare_registration requested base_ref = do
    let absolute = context.disk.resolve_path requested
    source ← resolve_workspace_directory context.disk absolute
    found ← finished_loop (find_repo_root context.disk source.canonical_path)
    repo ← or_throw found (registry_error "WORKTREE_REPO_REQUIRED" absolute)
    root ← or_throw context.worktree_root (registry_error "WORKTREE_ROOT_UNCONFIGURED" absolute)
    managed_root ← finished_loop (canonicalize_potential_path context.disk root)
    throw_if (is_same_or_descendant_path context.disk repo managed_root)
        (registry_error "WORKTREE_ROOT_CONFLICT" managed_root)
    stats ← thrown_fault (context.disk.stat repo)
    let identity = filesystem_identity_from_stats stats
    commit ← from_git base_ref (around.resolve_git_commit repo base_ref)
    let key = worktree_ownership_key around.digest identity commit
    ok (
      record {
        key = key;
        absolute_requested_path = absolute;
        repo = repo;
        source_identity = identity;
        requested_ref = base_ref;
        at_commit = commit;
        branch_name = codes "benchhand/" ++ key;
        path = context.disk.join_path managed_root key;
      },
      managed_root,
    )

  module _ (registration : ManagedWorktreeRegistration) where
    unfoldable pub active_key : ManagedWorktreeRow → Bool
    active_key row = has_ownership_key registration.key row && is_active row.managed_status

    unfoldable pub cleanup_error : Text → RegistryFailure
    cleanup_error path = registry_error "WORKTREE_CLEANUP_REQUIRED" path

    -- The transaction that marks a worktree for its cleanup
    unfoldable pub mark_cleanup_required :
        ManagedWorktreeRow → Exec Registry RegistryFailure (Unit {0})
    unfolding active_key update_where count_where append_worktree_journal
    mark_cleanup_required existing r =
        let marked = record r {
          managed =
              update_where active_key (λ row. record row { managed_status = cleanup_required })
                r.managed;
        } in
        (
          ok tt,
          if count_where active_key r.managed == 1
              then append_worktree_journal registration.key (some existing.managed_workspace_id)
                  cleanup_intent marked
              else marked,
        )

    unfoldable pub unavailable_worktree : ManagedWorktreeRow → Exec Registry RegistryFailure Value
    unfolding cleanup_error mark_cleanup_required transaction
    unavailable_worktree existing r = (
      err (cleanup_error existing.managed_path),
      (transaction (mark_cleanup_required existing) r).1,
    )

    -- The UPDATE of a worktree that is opened again
    unfoldable pub reopen : WorkspaceRow → WorkspaceRow
    reopen row = record row {
      requested_path = registration.absolute_requested_path;
      last_used_at = context.timestamp;
      owner_instance = context.owner_instance;
      status = available;
      metadata_version = suc row.metadata_version;
    }

    unfoldable pub reopened : (id : Text) → Exec Registry RegistryFailure Value
    unfolding reopen required read_workspace update_where
    reopened id r =
        let r' = record r { workspaces = update_where (has_workspace_id id) reopen r.workspaces } in
        (required context registration (read_workspace context id r'), r')

    unfoldable pub inspected_worktree :
        ManagedWorktreeRow
        → Result RegistryFailure WorkspaceStatus
        → Exec Registry RegistryFailure Value
    unfolding reopened unavailable_worktree
    inspected_worktree existing (err e) r = (err e, r)
    inspected_worktree existing (ok available) r = reopened existing.managed_workspace_id r
    inspected_worktree existing (ok _) r = unavailable_worktree existing r

    unfoldable pub known_workspace :
        ManagedWorktreeRow
        → Option WorkspaceRow
        → Result RegistryFailure (Option Value)
        → Exec Registry RegistryFailure Value
    unfolding inspected_worktree unavailable_worktree inspect_persisted_workspace_path
    known_workspace existing row (err e) r = (err e, r)
    known_workspace existing (some row) (ok (some workspace)) r =
        inspected_worktree existing
          (inspect_persisted_workspace_path context.disk row.canonical_path row.filesystem_identity)
          (around.others inspecting r)
    known_workspace existing row (ok workspace) r = unavailable_worktree existing r

    unfoldable pub existing_worktree :
        ManagedWorktreeRow → ManagedStatus → Exec Registry RegistryFailure Value
    unfolding known_workspace cleanup_error read_workspace
    existing_worktree existing cleanup_required r = (err (cleanup_error existing.managed_path), r)
    existing_worktree existing active r =
        known_workspace existing
          (find (has_workspace_id existing.managed_workspace_id) r.workspaces)
          (read_workspace context existing.managed_workspace_id r) r
