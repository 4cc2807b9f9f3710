-- ===== src/Workspace/Invariants/Kept.antt =====
-- The calls of `WorkspaceRegistry`, packages/workspace/src/index.ts, and the tables.
use benchhand.Prelude.{
  ℕ, zero, suc, true, Option, none, some, List, ◌≡◌, refl, Bool-cases, inl, inr, find, any, Result,
  ok, err,
}
use benchhand.Prelude.Text.{Text}
use benchhand.Contracts.Value.{Value}
use benchhand.Storage.Table.{transaction_keeps}
use benchhand.Workspace.Porcelain.{GitWorktreeInfo}
use benchhand.Workspace.Directories.{RegistryFailure, WorkspaceDirectory}
use benchhand.Workspace.Registry.{
  ManagedWorktreeRow, JournalAction, create_intent, reconciled, Registry,
  has_worktree_journal_action,
}
use benchhand.Workspace.Checkouts.{RegistryContext}
use benchhand.Workspace.Worktrees.{
  ManagedWorktreeRegistration, GitFailure, Look, register_found, read_registered, register_at,
  is_active_key, register_managed_worktree, as_reconciled, look_at_worktrees, look_at_path,
  try_reconcile_partial_worktree, wait_round, wait_for_inflight_worktree, is_ours, given_up,
}
use benchhand.Workspace.Worktrees.Known.{Surroundings, Moment}
use benchhand.Workspace.Invariants.{IsSound}
use benchhand.Workspace.Invariants.Registered.{registers, insert_registration-IsSound}

-- What other calls do keeps the tables sound.
abbrev pub Keeps : (Registry → Registry) → Type 0
Keeps others = (r : Registry) → IsSound r → IsSound (others r)

pub record KeepsAtLook (look : Look) : Type 0 where
  pub before : Keeps look.before
  pub meanwhile : Keeps look.meanwhile

pub record KeepsAround (around : Surroundings) : Type 0 where
  pub others : (moment : Moment) → Keeps (around.others moment)
  pub occupied_look : KeepsAtLook around.occupied_look
  pub waiting_looks : (n : ℕ) → KeepsAtLook (around.waiting_looks n)
  pub failed_look : KeepsAtLook around.failed_look
  pub created_look : KeepsAtLook around.created_look

module _ (context : RegistryContext) (registration : ManagedWorktreeRegistration) where
  register_found-IsSound :
      (action : JournalAction) (directory : WorkspaceDirectory)
      (existing : Option ManagedWorktreeRow) (r : Registry)
      → registers action ≡ true
      → IsSound r
      → IsSound (register_found context registration action directory existing r).1
  unfolding register_found
  register_found-IsSound action directory (some existing) r registering sound = sound
  register_found-IsSound action directory none r registering sound =
      insert_registration-IsSound context registration action directory r registering sound

  read_registered-state :
      (p : Result RegistryFailure Text × Registry)
      → (read_registered context registration p).1 ≡ p.1
  unfolding read_registered
  read_registered-state (err e, r) = refl
  read_registered-state (ok id, r) = refl

  register_at-IsSound :
      (action : JournalAction) (directory : Result RegistryFailure WorkspaceDirectory)
      (r : Registry)
      → registers action ≡ true
      → IsSound r
      → IsSound (register_at context registration action directory r).1
  unfolding register_at
  register_at-IsSound action (err e) r registering sound = sound
  register_at-IsSound action (ok directory) r registering sound = rw (read_registered-state _) (
      transaction_keeps IsSound
        (λ rows.
          register_found context registration action directory
            (find (is_active_key context registration) rows.managed) rows)
        r sound (register_found-IsSound action directory _ r registering sound))

  pub register_managed_worktree-IsSound :
      (action : JournalAction) (look : Look) (r : Registry)
      → registers action ≡ true
      → KeepsAtLook look
      → IsSound r
      → IsSound (register_managed_worktree context registration action look r).1
  unfolding register_managed_worktree
  register_managed_worktree-IsSound action look r registering keeps sound =
      register_at-IsSound action look.directory (look.meanwhile r) registering
        (keeps.meanwhile r sound)

  as_reconciled-state :
      (p : Result RegistryFailure Value × Registry) → (as_reconciled context registration p).1 ≡ p.1
  unfolding as_reconciled
  as_reconciled-state (err e, r) = refl
  as_reconciled-state (ok workspace, r) = refl

  look_at_worktrees-IsSound :
      (look : Look) (expected : Text) (worktrees : Result GitFailure (List GitWorktreeInfo))
      (r : Registry)
      → KeepsAtLook look
      → IsSound r
      → IsSound (look_at_worktrees context registration look expected worktrees r).1
  unfolding look_at_worktrees
  look_at_worktrees-IsSound look expected (err e) r keeps sound = sound
  look_at_worktrees-IsSound look expected (ok worktrees) r keeps sound =
      let registered = register_managed_worktree-IsSound reconciled look r refl keeps sound in
      elim (Bool-cases (any (is_ours registration look expected) worktrees)) [
        | inl ours ↦ rw ours (rw (as_reconciled-state _) registered)
        | inr none_ours ↦ rw none_ours sound
      ]

  look_at_path-IsSound :
      (look : Look) (expected : Option Text) (r : Registry)
      → KeepsAtLook look
      → IsSound r
      → IsSound (look_at_path context registration look expected r).1
  unfolding look_at_path
  look_at_path-IsSound look none r keeps sound = sound
  look_at_path-IsSound look (some expected) r keeps sound =
      look_at_worktrees-IsSound look expected look.worktrees r keeps sound

  pub try_reconcile_partial_worktree-IsSound :
      (look : Look) (r : Registry)
      → KeepsAtLook look
      → IsSound r
      → IsSound (try_reconcile_partial_worktree context registration look r).1
  unfolding try_reconcile_partial_worktree
  try_reconcile_partial_worktree-IsSound look r keeps sound =
      elim (Bool-cases
        (has_worktree_journal_action registration.key create_intent (look.before r))) [
          | inl intended ↦ rw intended (
              look_at_path-IsSound look look.canonical_expected (look.before r) keeps
                (keeps.before r sound))
          | inr fresh ↦ rw fresh (keeps.before r sound)
        ]

  wait_round-IsSound :
      (p : Result RegistryFailure (Option Value) × Registry)
      (later : Registry → Result RegistryFailure (Option Value) × Registry)
      → IsSound p.1
      → ((r : Registry) → IsSound r → IsSound (later r).1)
      → IsSound (wait_round context registration p later).1
  unfolding wait_round
  wait_round-IsSound (err e, r) later sound keeps = sound
  wait_round-IsSound (ok (some workspace), r) later sound keeps = sound
  wait_round-IsSound (ok none, r) later sound keeps =
      elim (Bool-cases (given_up context registration r)) [
        | inl over ↦ rw over sound
        | inr waiting ↦ rw waiting (keeps r sound)
      ]

  pub wait_for_inflight_worktree-IsSound :
      (attempts : ℕ) (looks : ℕ → Look) (r : Registry)
      → ((n : ℕ) → KeepsAtLook (looks n))
      → IsSound r
      → IsSound (wait_for_inflight_worktree context registration attempts looks r).1
  unfolding wait_for_inflight_worktree
  wait_for_inflight_worktree-IsSound zero looks r keeps sound =
      try_reconcile_partial_worktree-IsSound (looks zero) r (keeps zero) sound
  wait_for_inflight_worktree-IsSound (suc attempts) looks r keeps sound =
      wait_round-IsSound _ _
        (try_reconcile_partial_worktree-IsSound (looks (suc attempts)) r (keeps (suc attempts))
          sound)
        (λ r' sound'. wait_for_inflight_worktree-IsSound attempts looks r' keeps sound')
