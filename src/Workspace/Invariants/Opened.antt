-- ===== src/Workspace/Invariants/Opened.antt =====
-- `#openWorktree` of `WorkspaceRegistry`, packages/workspace/src/index.ts, and the tables.
use benchhand.Prelude.{
  Bool, true, false, Option, none, some, refl, arith, Bool-cases, inl, inr, Result, ok, err, ◌==◌,
}
use benchhand.Prelude.Text.{Text}
use benchhand.Contracts.Value.{Value}
use benchhand.Contracts.Schema.{WorkspaceStatus, available}
use benchhand.Storage.Table.{count_where, transaction_keeps}
use benchhand.Workspace.Directories.{
  RegistryFailure, registry_error, thrown_error, fault, unfinished, PathFault, enoent,
}
use benchhand.Workspace.Registry.{
  WorkspaceRow, ManagedWorktreeRow, ManagedStatus, active, cleanup_required, create_intent, created,
  cleanup_intent, create_failed, Registry, has_workspace_id, append_worktree_journal,
  has_worktree_journal_action,
}
use benchhand.Workspace.Checkouts.{RegistryContext}
use benchhand.Workspace.Worktrees.{ManagedWorktreeRegistration, GitFailure}
use benchhand.Workspace.Worktrees.Known.{
  Surroundings, inspecting, checking, creating, active_key, reopen, mark_cleanup_required,
  unavailable_worktree, reopened, inspected_worktree, known_workspace, existing_worktree,
}
use benchhand.Workspace.Worktrees.Opening.{
  create_refused, create_answered, create_worktree, orphaned_branch, waited, intended_branch,
  branch_exists, branch_checked, check_branch, occupied_failure, occupied, path_checked,
  fresh_worktree, open_registration, inflight_reconcile_attempts,
}
use benchhand.Workspace.Invariants.{
  IsSound, update-IsSound, append_worktree_journal-IsSound, has_action-last,
}
use benchhand.Workspace.Invariants.Kept.{
  KeepsAround, register_managed_worktree-IsSound, try_reconcile_partial_worktree-IsSound,
  wait_for_inflight_worktree-IsSound,
}
use benchhand.Workspace.Invariants.Registered.{managed_update-IsSound, creation-IsSound}

module _ (context : RegistryContext) (around : Surroundings) (keeps : KeepsAround around)
    (registration : ManagedWorktreeRegistration) where
  mark_cleanup_required-IsSound :
      (existing : ManagedWorktreeRow) (r : Registry)
      → IsSound r
      → IsSound (mark_cleanup_required context around registration existing r).1
  unfolding mark_cleanup_required
  mark_cleanup_required-IsSound existing r sound =
      let marked =
        managed_update-IsSound (active_key context around registration)
          (λ row. record row { managed_status = cleanup_required }) r (λ row. refl) (λ row. refl)
          sound in
      elim (Bool-cases (count_where (active_key context around registration) r.managed == 1)) [
        | inl once ↦ rw once (
            append_worktree_journal-IsSound registration.key (some existing.managed_workspace_id)
              cleanup_intent _ marked)
        | inr never ↦ rw never marked
      ]

  unavailable_worktree-IsSound :
      (existing : ManagedWorktreeRow) (r : Registry)
      → IsSound r
      → IsSound (unavailable_worktree context around registration existing r).1
  unfolding unavailable_worktree
  unavailable_worktree-IsSound existing r sound =
      transaction_keeps IsSound (mark_cleanup_required context around registration existing) r sound
        (mark_cleanup_required-IsSound existing r sound)

  reopened-IsSound :
      (id : Text) (r : Registry) → IsSound r → IsSound (reopened context around registration id r).1
  unfolding reopened reopen
  reopened-IsSound id r sound =
      update-IsSound (has_workspace_id id) (reopen context around registration) r (λ row. refl)
        (λ canonical identity mode row. refl) (λ row. omega arith) sound

  inspected_worktree-IsSound :
      (existing : ManagedWorktreeRow) (status : Result RegistryFailure WorkspaceStatus)
      (r : Registry)
      → IsSound r
      → IsSound (inspected_worktree context around registration existing status r).1
  unfolding inspected_worktree
  inspected_worktree-IsSound existing (err e) r sound = sound
  inspected_worktree-IsSound existing (ok available) r sound =
      reopened-IsSound existing.managed_workspace_id r sound
  inspected_worktree-IsSound existing (ok _) r sound = unavailable_worktree-IsSound existing r sound

  known_workspace-IsSound :
      (existing : ManagedWorktreeRow) (row : Option WorkspaceRow)
      (workspace : Result RegistryFailure (Option Value)) (r : Registry)
      → IsSound r
      → IsSound (known_workspace context around registration existing row workspace r).1
  unfolding known_workspace
  known_workspace-IsSound existing row (err e) r sound = sound
  known_workspace-IsSound existing (some row) (ok (some workspace)) r sound =
      inspected_worktree-IsSound existing _ _ (keeps.others inspecting r sound)
  known_workspace-IsSound existing none (ok (some workspace)) r sound =
      unavailable_worktree-IsSound existing r sound
  known_workspace-IsSound existing none (ok none) r sound =
      unavailable_worktree-IsSound existing r sound
  known_workspace-IsSound existing (some row) (ok none) r sound =
      unavailable_worktree-IsSound existing r sound

  existing_worktree-IsSound :
      (existing : ManagedWorktreeRow) (status : ManagedStatus) (r : Registry)
      → IsSound r
      → IsSound (existing_worktree context around registration existing status r).1
  unfolding existing_worktree
  existing_worktree-IsSound existing cleanup_required r sound = sound
  existing_worktree-IsSound existing active r sound = known_workspace-IsSound existing _ _ r sound

  create_refused-IsSound :
      (e : RegistryFailure) (p : Result RegistryFailure (Option Value) × Registry)
      → IsSound p.1
      → IsSound (create_refused context around registration e p).1
  unfolding create_refused
  create_refused-IsSound e (err e', r) sound = sound
  create_refused-IsSound e (ok (some workspace), r) sound = sound
  create_refused-IsSound e (ok none, r) sound =
      append_worktree_journal-IsSound registration.key none create_failed r sound

  create_answered-IsSound :
      (answer : Result RegistryFailure (Unit {0})) (r : Registry)
      → IsSound r
      → IsSound (create_answered context around registration answer r).1
  unfolding create_answered
  create_answered-IsSound (ok _) r sound =
      register_managed_worktree-IsSound context registration created around.created_look r refl
        keeps.created_look sound
  create_answered-IsSound (err e) r sound = create_refused-IsSound e _ (
      try_reconcile_partial_worktree-IsSound context registration around.failed_look r
        keeps.failed_look sound)

  create_worktree-IsSound :
      (r : Registry) → IsSound r → IsSound (create_worktree context around registration r).1
  unfolding create_worktree
  create_worktree-IsSound r sound =
      let intended = append_worktree_journal registration.key none create_intent r in
      let called =
        creation-IsSound registration.key intended
          (has_action-last registration.key none create_intent r)
          (append_worktree_journal-IsSound registration.key none create_intent r sound) in
      create_answered-IsSound _ _ (keeps.others creating _ called)

  orphaned_branch-IsSound :
      (r : Registry) → IsSound r → IsSound (orphaned_branch context around registration r).1
  unfolding orphaned_branch
  orphaned_branch-IsSound r sound =
      elim (Bool-cases (has_worktree_journal_action registration.key cleanup_intent r)) [
        | inl there ↦ rw there sound
        | inr fresh ↦
            rw fresh (append_worktree_journal-IsSound registration.key none cleanup_intent r sound)
      ]

  waited-IsSound :
      (p : Result RegistryFailure (Option Value) × Registry)
      → IsSound p.1
      → IsSound (waited context around registration p).1
  unfolding waited
  waited-IsSound (err e, r) sound = sound
  waited-IsSound (ok (some workspace), r) sound = sound
  waited-IsSound (ok none, r) sound = orphaned_branch-IsSound r sound

  intended_branch-IsSound :
      (in_flight : Bool) (r : Registry)
      → IsSound r
      → IsSound (intended_branch context around registration in_flight r).1
  unfolding intended_branch
  intended_branch-IsSound true r sound = waited-IsSound _ (
      wait_for_inflight_worktree-IsSound context registration inflight_reconcile_attempts
        around.waiting_looks r keeps.waiting_looks sound)
  intended_branch-IsSound false r sound = orphaned_branch-IsSound r sound

  branch_exists-IsSound :
      (branch_commit : Text) (has_intent : Bool) (r : Registry)
      → IsSound r
      → IsSound (branch_exists context around registration branch_commit has_intent r).1
  unfolding branch_exists
  branch_exists-IsSound branch_commit true r sound = intended_branch-IsSound _ r sound
  branch_exists-IsSound branch_commit false r sound = sound

  branch_checked-IsSound :
      (branch : Result GitFailure (Option Text)) (r : Registry)
      → IsSound r
      → IsSound (branch_checked context around registration branch r).1
  unfolding branch_checked
  branch_checked-IsSound (err e) r sound = sound
  branch_checked-IsSound (ok none) r sound = create_worktree-IsSound r sound
  branch_checked-IsSound (ok (some branch_commit)) r sound =
      branch_exists-IsSound branch_commit _ r sound

  check_branch-IsSound :
      (r : Registry) → IsSound r → IsSound (check_branch context around registration r).1
  unfolding check_branch
  check_branch-IsSound r sound = branch_checked-IsSound _ _ (keeps.others checking r sound)

  occupied_failure-IsSound :
      (e : RegistryFailure) (r : Registry)
      → IsSound r
      → IsSound (occupied_failure context around registration e r).1
  unfolding occupied_failure
  occupied_failure-IsSound (fault enoent) r sound = check_branch-IsSound r sound
  occupied_failure-IsSound (fault _) r sound = sound
  occupied_failure-IsSound (thrown_error e) r sound = sound
  occupied_failure-IsSound (registry_error code path) r sound = sound
  occupied_failure-IsSound unfinished r sound = sound

  occupied-IsSound :
      (p : Result RegistryFailure (Option Value) × Registry)
      → IsSound p.1
      → IsSound (occupied context around registration p).1
  unfolding occupied
  occupied-IsSound (err e, r) sound = occupied_failure-IsSound e r sound
  occupied-IsSound (ok (some workspace), r) sound = sound
  occupied-IsSound (ok none, r) sound = sound

  path_checked-IsSound :
      (stands : Result PathFault (Unit {0})) (r : Registry)
      → IsSound r
      → IsSound (path_checked context around registration stands r).1
  unfolding path_checked
  path_checked-IsSound (err e) r sound = occupied_failure-IsSound (fault e) r sound
  path_checked-IsSound (ok _) r sound = occupied-IsSound _ (
      try_reconcile_partial_worktree-IsSound context registration around.occupied_look r
        keeps.occupied_look sound)

  fresh_worktree-IsSound :
      (made : Result PathFault (Unit {0})) (r : Registry)
      → IsSound r
      → IsSound (fresh_worktree context around registration made r).1
  unfolding fresh_worktree
  fresh_worktree-IsSound (err e) r sound = sound
  fresh_worktree-IsSound (ok _) r sound = path_checked-IsSound _ r sound

  pub open_registration-IsSound :
      (managed_root : Text) (existing : Option ManagedWorktreeRow) (r : Registry)
      → IsSound r
      → IsSound (open_registration context around registration managed_root existing r).1
  unfolding open_registration
  open_registration-IsSound managed_root (some existing) r sound =
      existing_worktree-IsSound existing existing.managed_status r sound
  open_registration-IsSound managed_root none r sound = fresh_worktree-IsSound _ r sound
