-- ===== src/Workspace/Worktrees.antt =====
-- `open` in worktree mode, packages/workspace/src/index.ts: `#openWorktree`,
-- `#waitForInflightWorktree`, `#tryReconcilePartialWorktree` and `#registerManagedWorktree`. What
-- Git answers, what the disk answers while it changes, and what other calls do to the tables during
-- an `await` are parameters.
pub mod Known
pub mod Opening
use benchhand.Prelude.{
  ℕ, zero, suc, String, Bool, true, false, ◌&&◌, ◌||◌, not, Option, none, some, List, [], ◌∷◌, ◌++◌,
  ◌==◌, leb, ◌+◌, if◌then◌else◌, find, any, length, map, take, Result, ok, err, ◌>>=◌, ◌>>◌,
  throw_if, Exec,
}
use benchhand.Prelude.Text.{Text, codes, text_eq}
use benchhand.Contracts.Value.{Value}
use benchhand.Contracts.Schema.{
  Schema, Thrown, error_object, WorkspaceMode, checkout, worktree, WorkspaceStatus, available,
}
use benchhand.Storage.Table.{update_where, count_where, transaction}
use benchhand.Workspace.Porcelain.{GitWorktreeInfo}
use benchhand.Workspace.Directories.{
  Disk, PathFault, enoent, RegistryFailure, registry_error, thrown_error, fault, WorkspaceDirectory,
  Stats, filesystem_identity_from_stats, resolve_workspace_directory, find_repo_root, finished_loop,
  inspect_persisted_workspace_path, canonicalize_potential_path, is_same_or_descendant_path,
  classify_open_path_error,
}
use benchhand.Workspace.Registry.{
  WorkspaceRow, ManagedWorktreeRow, ManagedStatus, active, cleanup_required, JournalAction,
  create_intent, created, create_failed, cleanup_intent, reconciled, Registry, has_workspace_id,
  has_ownership_key, same_place, is_active, constraint_failed, append_worktree_journal,
  has_worktree_journal_action,
}
use benchhand.Workspace.Checkouts.{RegistryContext, read_workspace}

pub record ManagedWorktreeRegistration : Type 0 where
  pub key : Text
  pub absolute_requested_path : Text
  pub repo : Text
  pub source_identity : Text
  pub requested_ref : Text
  pub at_commit : Text
  pub branch_name : Text
  pub path : Text

-- `GitWorktreeError`
pub record GitFailure : Type 0 where
  pub code : String

-- What one look at the disk and at Git finds: `canonical_expected` is the real path of the
-- worktree's path, `directory` what `resolveWorkspaceDirectory` answers for it, `meanwhile` what
-- other calls do before the row is written.
pub record Look : Type 0 where
  pub before : Registry → Registry
  pub canonical_expected : Option Text
  pub worktrees : Result GitFailure (List GitWorktreeInfo)
  pub realpath_of : Text → Option Text
  pub directory : Result RegistryFailure WorkspaceDirectory
  pub meanwhile : Registry → Registry

unfoldable pub lower_hex : ℕ → ℕ
lower_hex c = if leb 65 c && leb c 90 then c + 32 else c

matches_text : Option Text → Text → Bool
matches_text none expected = false
matches_text (some text) expected = text_eq text expected

lowered : Option Text → Option Text
unfolding lower_hex
lowered none = none
lowered (some text) = some (map lower_hex text)

-- The four tests of the loop of `#tryReconcilePartialWorktree`
unfoldable pub is_ours :
    ManagedWorktreeRegistration → Look → (expected : Text) → GitWorktreeInfo → Bool
unfolding matches_text lowered
is_ours registration look expected info =
    matches_text (look.realpath_of info.path) expected
    && (matches_text (lowered info.head) registration.at_commit
        && (matches_text info.branch (codes "refs/heads/" ++ registration.branch_name)
            && matches_text info.locked_reason (codes "benchhand:" ++ registration.key)))

unfoldable pub git_failure : Text → GitFailure → RegistryFailure
git_failure path e = registry_error e.code path

module _ (context : RegistryContext) (registration : ManagedWorktreeRegistration) where
  unfoldable pub worktree_row : WorkspaceDirectory → WorkspaceRow
  worktree_row directory = record {
    workspace_id = context.candidate_id;
    canonical_path = directory.canonical_path;
    requested_path = registration.absolute_requested_path;
    filesystem_identity = directory.filesystem_identity;
    mode = worktree;
    repo_root = some registration.repo;
    worktree_path = some directory.canonical_path;
    base_ref = some registration.at_commit;
    branch = some registration.branch_name;
    created_at = context.timestamp;
    last_used_at = context.timestamp;
    owner_instance = context.owner_instance;
    status = available;
    metadata_version = 1;
  }

  unfoldable pub managed_row : WorkspaceDirectory → ManagedWorktreeRow
  managed_row directory = record {
    ownership_key = registration.key;
    managed_workspace_id = context.candidate_id;
    source_repo_root = registration.repo;
    source_filesystem_identity = registration.source_identity;
    requested_base_ref = registration.requested_ref;
    base_commit = registration.at_commit;
    managed_branch = registration.branch_name;
    managed_path = directory.canonical_path;
    managed_status = active;
  }

  -- The constraints of the two tables that an INSERT can violate.
  unfoldable pub workspace_taken : WorkspaceRow → Registry → Bool
  workspace_taken row r =
      any (has_workspace_id row.workspace_id) r.workspaces
      || any (same_place row.canonical_path row.filesystem_identity row.mode) r.workspaces

  same_worktree : ManagedWorktreeRow → ManagedWorktreeRow → Bool
  same_worktree row other =
      (text_eq other.managed_workspace_id row.managed_workspace_id
        || text_eq other.managed_branch row.managed_branch)
      || (text_eq other.managed_path row.managed_path
          || (text_eq other.source_filesystem_identity row.source_filesystem_identity
              && text_eq other.base_commit row.base_commit))

  unfoldable pub managed_taken : ManagedWorktreeRow → Registry → Bool
  unfolding same_worktree
  managed_taken row r =
      any (has_ownership_key row.ownership_key) r.managed || any (same_worktree row) r.managed

  -- The two rows and the event of a registration.
  unfoldable pub insert_rows :
      (taken : Bool) → JournalAction → WorkspaceDirectory → Exec Registry RegistryFailure Text
  unfolding worktree_row managed_row append_worktree_journal
  insert_rows true action directory r = (err constraint_failed, r)
  insert_rows false action directory r = (
    ok context.candidate_id,
    append_worktree_journal registration.key (some context.candidate_id) action (record r {
      workspaces = r.workspaces ++ worktree_row directory ∷ [];
      managed = r.managed ++ managed_row directory ∷ [];
    }),
  )

  unfoldable pub insert_registration :
      JournalAction → WorkspaceDirectory → Exec Registry RegistryFailure Text
  unfolding insert_rows worktree_row managed_row workspace_taken managed_taken
  insert_registration action directory r =
      insert_rows
        (workspace_taken (worktree_row directory) r || managed_taken (managed_row directory) r)
        action directory r

  unfoldable pub is_active_key : ManagedWorktreeRow → Bool
  is_active_key row = has_ownership_key registration.key row && is_active row.managed_status

  unfoldable pub register_found :
      JournalAction
      → WorkspaceDirectory
      → Option ManagedWorktreeRow
      → Exec Registry RegistryFailure Text
  unfolding insert_registration
  register_found action directory (some existing) r = (ok existing.managed_workspace_id, r)
  register_found action directory none r = insert_registration action directory r

  -- `#readRequired`
  unfoldable pub required : Result RegistryFailure (Option Value) → Result RegistryFailure Value
  required (err e) = err e
  required (ok none) =
      err (thrown_error (error_object "Error" "workspace disappeared from registry"))
  required (ok (some workspace)) = ok workspace

  unfoldable pub read_registered :
      Result RegistryFailure Text × Registry → Result RegistryFailure Value × Registry
  unfolding required read_workspace
  read_registered (err e, r) = (err e, r)
  read_registered (ok id, r) = (required (read_workspace context id r), r)

  unfoldable pub register_at :
      JournalAction
      → Result RegistryFailure WorkspaceDirectory
      → Exec Registry RegistryFailure Value
  unfolding read_registered register_found transaction is_active_key
  register_at action (err e) r = (err e, r)
  register_at action (ok directory) r = read_registered (
      transaction (λ rows. register_found action directory (find is_active_key rows.managed) rows)
        r)

  unfoldable pub register_managed_worktree :
      JournalAction → Look → Exec Registry RegistryFailure Value
  unfolding register_at
  register_managed_worktree action look r = register_at action look.directory (look.meanwhile r)

  unfoldable pub as_reconciled :
      Result RegistryFailure Value × Registry → Result RegistryFailure (Option Value) × Registry
  as_reconciled (err e, r) = (err e, r)
  as_reconciled (ok workspace, r) = (ok (some workspace), r)

  unfoldable pub look_at_worktrees :
      Look
      → (expected : Text) → Result GitFailure (List GitWorktreeInfo)
      → Exec Registry RegistryFailure (Option Value)
  unfolding as_reconciled register_managed_worktree is_ours git_failure
  look_at_worktrees look expected (err e) r = (err (git_failure registration.repo e), r)
  look_at_worktrees look expected (ok worktrees) r =
      if any (is_ours registration look expected) worktrees
      then as_reconciled (register_managed_worktree reconciled look r)
      else (ok none, r)

  unfoldable pub look_at_path : Look → Option Text → Exec Registry RegistryFailure (Option Value)
  unfolding look_at_worktrees
  look_at_path look none r = (ok none, r)
  look_at_path look (some expected) r = look_at_worktrees look expected look.worktrees r

  unfoldable pub try_reconcile_partial_worktree :
      Look → Exec Registry RegistryFailure (Option Value)
  unfolding look_at_path has_worktree_journal_action
  try_reconcile_partial_worktree look r =
      if has_worktree_journal_action registration.key create_intent (look.before r)
      then look_at_path look look.canonical_expected (look.before r)
      else (ok none, look.before r)

  -- `create-failed` or `cleanup-intent` in the journal
  unfoldable pub given_up : Registry → Bool
  unfolding has_worktree_journal_action
  given_up r =
      has_worktree_journal_action registration.key create_failed r
      || has_worktree_journal_action registration.key cleanup_intent r

  unfoldable pub wait_round :
      Result RegistryFailure (Option Value) × Registry
      → (later : Exec Registry RegistryFailure (Option Value))
      → Result RegistryFailure (Option Value) × Registry
  unfolding given_up
  wait_round (err e, r) later = (err e, r)
  wait_round (ok (some workspace), r) later = (ok (some workspace), r)
  wait_round (ok none, r) later = if given_up r then (ok none, r) else later r

  -- The loop of `#waitForInflightWorktree` with so many attempts left, and the last look.
  unfoldable pub wait_for_inflight_worktree :
      (attempts : ℕ) → (looks : ℕ → Look) → Exec Registry RegistryFailure (Option Value)
  unfolding wait_round try_reconcile_partial_worktree
  wait_for_inflight_worktree zero looks r = try_reconcile_partial_worktree (looks zero) r
  wait_for_inflight_worktree (suc attempts) looks r =
      wait_round (try_reconcile_partial_worktree (looks (suc attempts)) r)
        (λ r'. wait_for_inflight_worktree attempts looks r')
