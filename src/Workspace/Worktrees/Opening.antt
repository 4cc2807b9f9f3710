-- ===== src/Workspace/Worktrees/Opening.antt =====
-- `#openWorktree` and `open` of packages/workspace/src/index.ts.
use benchhand.Prelude.{
  ℕ, Bool, true, false, ◌&&◌, not, Option, none, some, ◌∷◌, ◌==◌, if◌then◌else◌, find, length,
  Result, ok, err, Exec,
}
use benchhand.Prelude.Text.{Text, codes, text_eq}
use benchhand.Contracts.Value.{Value}
use benchhand.Contracts.Schema.{error_object, WorkspaceMode, checkout, worktree}
use benchhand.Workspace.Directories.{
  PathFault, enoent, RegistryFailure, registry_error, thrown_error, fault, classify_open_path_error,
}
use benchhand.Workspace.Registry.{
  ManagedWorktreeRow, create_intent, created, create_failed, cleanup_intent, Registry,
  has_ownership_key, append_worktree_journal, has_worktree_journal_action,
}
use benchhand.Workspace.Checkouts.{RegistryContext, open_checkout}
use benchhand.Workspace.Worktrees.{
  ManagedWorktreeRegistration, GitFailure, git_failure, register_managed_worktree,
  try_reconcile_partial_worktree, wait_for_inflight_worktree,
}
use benchhand.Workspace.Worktrees.Known.{
  Surroundings, preparing, checking, creating, prepare_registration, cleanup_error,
  existing_worktree,
}

abbrev pub inflight_reconcile_attempts : ℕ
inflight_reconcile_attempts = 40

module _ (context : RegistryContext) (around : Surroundings) where
  module _ (registration : ManagedWorktreeRegistration) where
    -- Git has refused: perhaps another call has made the worktree.
    unfoldable pub create_refused :
        RegistryFailure
        → Result RegistryFailure (Option Value) × Registry
        → Result RegistryFailure Value × Registry
    unfolding append_worktree_journal
    create_refused e (err e', r) = (err e', r)
    create_refused e (ok (some workspace), r) = (ok workspace, r)
    create_refused e (ok none, r) =
        (err e, append_worktree_journal registration.key none create_failed r)

    unfoldable pub create_answered :
        Result RegistryFailure (Unit {0}) → Exec Registry RegistryFailure Value
    unfolding create_refused register_managed_worktree try_reconcile_partial_worktree
    create_answered (ok _) r =
        register_managed_worktree context registration created around.created_look r
    create_answered (err e) r =
        create_refused e (try_reconcile_partial_worktree context registration around.failed_look r)

    -- The intent is in the journal before Git is called.
    unfoldable pub create_worktree : Exec Registry RegistryFailure Value
    unfolding create_answered append_worktree_journal
    create_worktree r =
        let intended = append_worktree_journal registration.key none create_intent r in
        let called = record intended { creations = registration.key ∷ intended.creations } in
        create_answered (around.create_locked_worktree registration) (around.others creating called)

    unfoldable pub orphaned_branch : Exec Registry RegistryFailure Value
    unfolding cleanup_error append_worktree_journal has_worktree_journal_action
    orphaned_branch r = (
      err (cleanup_error context around registration registration.repo),
      if has_worktree_journal_action registration.key cleanup_intent r
          then r
          else append_worktree_journal registration.key none cleanup_intent r,
    )

    unfoldable pub waited :
        Result RegistryFailure (Option Value) × Registry → Result RegistryFailure Value × Registry
    unfolding orphaned_branch
    waited (err e, r) = (err e, r)
    waited (ok (some workspace), r) = (ok workspace, r)
    waited (ok none, r) = orphaned_branch r

    unfoldable pub can_still_be_in_flight : (branch_commit : Text) → Registry → Bool
    unfolding has_worktree_journal_action
    can_still_be_in_flight branch_commit r =
        text_eq branch_commit registration.at_commit
        && (not (has_worktree_journal_action registration.key create_failed r)
            && not (has_worktree_journal_action registration.key cleanup_intent r))

    unfoldable pub intended_branch : (in_flight : Bool) → Exec Registry RegistryFailure Value
    unfolding waited orphaned_branch wait_for_inflight_worktree
    intended_branch true r = waited (
        wait_for_inflight_worktree context registration inflight_reconcile_attempts
          around.waiting_looks r)
    intended_branch false r = orphaned_branch r

    unfoldable pub branch_exists :
        (branch_commit : Text) → (has_intent : Bool) → Exec Registry RegistryFailure Value
    unfolding intended_branch can_still_be_in_flight
    branch_exists branch_commit true r = intended_branch (can_still_be_in_flight branch_commit r) r
    branch_exists branch_commit false r =
        (err (registry_error "WORKTREE_BRANCH_OCCUPIED" registration.repo), r)

    unfoldable pub branch_checked :
        Result GitFailure (Option Text) → Exec Registry RegistryFailure Value
    unfolding branch_exists create_worktree git_failure has_worktree_journal_action
    branch_checked (err e) r = (err (git_failure registration.repo e), r)
    branch_checked (ok none) r = create_worktree r
    branch_checked (ok (some branch_commit)) r =
        branch_exists branch_commit (has_worktree_journal_action registration.key create_intent r) r

    unfoldable pub check_branch : Exec Registry RegistryFailure Value
    unfolding branch_checked
    check_branch r =
        branch_checked (around.read_local_branch_commit registration.repo registration.branch_name)
          (around.others checking r)

    -- The `catch` around the look at an occupied path
    unfoldable pub occupied_failure : RegistryFailure → Exec Registry RegistryFailure Value
    unfolding check_branch classify_open_path_error
    occupied_failure (fault enoent) r = check_branch r
    occupied_failure (fault e) r = (err (classify_open_path_error registration.path e), r)
    occupied_failure (thrown_error e) r =
        (err (registry_error "WORKSPACE_PATH_FAILURE" registration.path), r)
    occupied_failure e r = (err e, r)

    unfoldable pub occupied :
        Result RegistryFailure (Option Value) × Registry → Result RegistryFailure Value × Registry
    unfolding occupied_failure
    occupied (err e, r) = occupied_failure e r
    occupied (ok (some workspace), r) = (ok workspace, r)
    occupied (ok none, r) = (err (registry_error "WORKTREE_PATH_OCCUPIED" registration.path), r)

    unfoldable pub path_checked : Result PathFault (Unit {0}) → Exec Registry RegistryFailure Value
    unfolding occupied occupied_failure try_reconcile_partial_worktree
    path_checked (err e) r = occupied_failure (fault e) r
    path_checked (ok _) r =
        occupied (try_reconcile_partial_worktree context registration around.occupied_look r)

    unfoldable pub fresh_worktree :
        Result PathFault (Unit {0}) → Exec Registry RegistryFailure Value
    unfolding path_checked
    fresh_worktree (err e) r = (err (fault e), r)
    fresh_worktree (ok _) r = path_checked (context.disk.lstat registration.path) r

    unfoldable pub open_registration :
        (managed_root : Text) → Option ManagedWorktreeRow → Exec Registry RegistryFailure Value
    unfolding existing_worktree fresh_worktree
    open_registration managed_root (some existing) r =
        existing_worktree context around registration existing existing.managed_status r
    open_registration managed_root none r = fresh_worktree (context.disk.mkdir managed_root) r

  unfoldable pub open_prepared :
      Result RegistryFailure (ManagedWorktreeRegistration × Text)
      → Exec Registry RegistryFailure Value
  unfolding open_registration
  open_prepared (err e) r = (err e, r)
  open_prepared (ok (registration, managed_root)) r =
      let r' = around.others preparing r in
      open_registration registration managed_root
        (find (has_ownership_key registration.key) r'.managed) r'

  unfoldable pub open_worktree : (requested base_ref : Text) → Exec Registry RegistryFailure Value
  unfolding open_prepared prepare_registration
  open_worktree requested base_ref r =
      open_prepared (prepare_registration context around requested base_ref) r

  -- `open`: without a `baseRef`, a worktree is made from `HEAD`.
  unfoldable pub open_mode :
      (mode : WorkspaceMode)
      → (requested : Text) → (base_ref : Option Text) → Exec Registry RegistryFailure Value
  unfolding open_worktree open_checkout
  open_mode checkout requested base_ref r = open_checkout context requested base_ref r
  open_mode worktree requested none r = open_worktree requested (codes "HEAD") r
  open_mode worktree requested (some base_ref) r = open_worktree requested base_ref r

  unfoldable pub open_workspace :
      (requested : Text)
      → (mode : WorkspaceMode) → (base_ref : Option Text) → Exec Registry RegistryFailure Value
  unfolding open_mode
  open_workspace requested mode base_ref r =
      if length requested == 0
      then (err (thrown_error (error_object "TypeError" "workspace path must not be empty")), r)
      else open_mode mode requested base_ref r
