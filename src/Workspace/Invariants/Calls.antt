-- ===== src/Workspace/Invariants/Calls.antt =====
-- Any sequence of calls of `open` and `get` of packages/workspace/src/index.ts.
use benchhand.Prelude.{
  ok-injective, Bool, false, Option, none, some, List, [], ◌∷◌, ◌≤◌, ◌==◌, ◌≡◌, refl, arith,
  Bool-cases, inl, inr, find, any, All, Result, ok, err, length, ap, sym,
}
use benchhand.Prelude.Text.{Text}
use benchhand.Contracts.Value.{Value}
use benchhand.Contracts.Schema.{WorkspaceMode, checkout, worktree, WorkspaceStatus}
use benchhand.Storage.Table.{count_where}
use benchhand.Workspace.Directories.{RegistryFailure, WorkspaceDirectory}
use benchhand.Workspace.Registry.{WorkspaceRow, Registry, has_workspace_id, same_place, same_status}
use benchhand.Workspace.Checkouts.{
  RegistryContext, touch, placed_row, upsert_workspace, upserted, open_located, open_checkout,
  checkout_row, row_in, row_for, revalidate, save_status, inspected_status, get_found, get_record,
  located_row,
}
use benchhand.Workspace.Worktrees.{ManagedWorktreeRegistration}
use benchhand.Workspace.Worktrees.Known.{Surroundings, preparing}
use benchhand.Workspace.Worktrees.Opening.{open_prepared, open_worktree, open_mode, open_workspace}
use benchhand.Workspace.Invariants.{IsSound, update-IsSound, insert-IsSound}
use benchhand.Workspace.Invariants.Kept.{Keeps, KeepsAround}
use benchhand.Workspace.Invariants.Opened.{open_registration-IsSound}

any-of-none :
    (p : WorkspaceRow → Bool) (rows : List WorkspaceRow) → find p rows ≡ none → any p rows ≡ false
any-of-none p [] h = refl
any-of-none p (row ∷ rows) h = ground (arith, any-of-none p rows)

module _ (context : RegistryContext) where
  placed_row-IsSound :
      (new : WorkspaceRow) (found : Option WorkspaceRow) (r : Registry)
      → find (same_place new.canonical_path new.filesystem_identity new.mode) r.workspaces ≡ found
      → 1 ≤ new.metadata_version
      → IsSound r
      → IsSound (record r { workspaces = (placed_row new found r.workspaces).1 })
  unfolding placed_row touch
  placed_row-IsSound new (some old) r found positive sound =
      update-IsSound (same_place new.canonical_path new.filesystem_identity new.mode) (touch new) r
        (λ row. refl) (λ canonical identity mode row. refl) (λ row. omega arith) sound
  placed_row-IsSound new none r found positive sound =
      elim (Bool-cases (any (has_workspace_id new.workspace_id) r.workspaces)) [
        | inl taken ↦ rw taken sound
        | inr free ↦
            rw free (insert-IsSound new r free (any-of-none _ r.workspaces found) positive sound)
      ]

  upserted-state :
      (r : Registry) (p : Result RegistryFailure WorkspaceRow × List WorkspaceRow)
      → IsSound r
      → IsSound (record r { workspaces = p.1 })
      → IsSound (upserted context r p).1
  unfolding upserted
  upserted-state r (err e, rows) sound later = sound
  upserted-state r (ok row, rows) sound later = later

  open_located-IsSound :
      (row : Result RegistryFailure WorkspaceRow) (r : Registry)
      → ((new : WorkspaceRow) → row ≡ ok new → 1 ≤ new.metadata_version)
      → IsSound r
      → IsSound (open_located context row r).1
  unfolding open_located upsert_workspace
  open_located-IsSound (err e) r positive sound = sound
  open_located-IsSound (ok new) r positive sound =
      upserted-state r _ sound (placed_row-IsSound new _ r refl (positive new refl) sound)

  -- What a row to put in has.
  abbrev pub IsNew : (absolute : Text) → WorkspaceRow → Type 0
  IsNew absolute new =
      (new.metadata_version ≡ 1) × (new.mode ≡ checkout) × (new.requested_path ≡ absolute)

  row_in-IsNew :
      (absolute : Text) (directory : WorkspaceDirectory)
      (repo_root : Result RegistryFailure (Option Text)) (new : WorkspaceRow)
      → row_in context absolute directory repo_root ≡ ok new
      → IsNew absolute new
  unfolding row_in checkout_row
  row_in-IsNew absolute directory (err e) new h = absurd cc
  row_in-IsNew absolute directory (ok repo_root) new h =
      let same = sym (ok-injective h) in
      (ap (λ w. w.metadata_version) same, ap (λ w. w.mode) same, ap (λ w. w.requested_path) same)

  row_for-IsNew :
      (absolute : Text) (directory : Result RegistryFailure WorkspaceDirectory) (new : WorkspaceRow)
      → row_for context absolute directory ≡ ok new
      → IsNew absolute new
  unfolding row_for
  row_for-IsNew absolute (err e) new h = absurd cc
  row_for-IsNew absolute (ok directory) new h = row_in-IsNew absolute directory _ new h

  pub located_row-IsNew :
      (requested : Text) (new : WorkspaceRow)
      → located_row context requested ≡ ok new
      → IsNew (context.disk.resolve_path requested) new
  unfolding located_row
  located_row-IsNew requested new h = row_for-IsNew (context.disk.resolve_path requested) _ new h

  open_checkout-IsSound :
      (requested : Text) (base_ref : Option Text) (r : Registry)
      → IsSound r
      → IsSound (open_checkout context requested base_ref r).1
  unfolding open_checkout checkout_row
  open_checkout-IsSound requested (some base_ref) r sound = sound
  open_checkout-IsSound requested none r sound =
      open_located-IsSound (located_row context requested) r
        (λ new h. let (one, _, _) = located_row-IsNew requested new h in omega (arith, one)) sound

  save_status-IsSound :
      (id : Text) (status : WorkspaceStatus) (r : Registry)
      → IsSound r
      → IsSound (save_status context id status r).1
  unfolding save_status revalidate
  save_status-IsSound id status r sound =
      let updated =
        update-IsSound (has_workspace_id id) (revalidate context status) r (λ row. refl)
          (λ canonical identity mode row. refl) (λ row. omega arith) sound in
      elim (Bool-cases (count_where (has_workspace_id id) r.workspaces == 1)) [
        | inl once ↦ rw once updated
        | inr gone ↦ rw gone updated
      ]

  inspected_status-IsSound :
      (row : WorkspaceRow) (existing : Value) (status : Result RegistryFailure WorkspaceStatus)
      (r : Registry)
      → IsSound r
      → IsSound (inspected_status context row existing status r).1
  unfolding inspected_status
  inspected_status-IsSound row existing (err e) r sound = sound
  inspected_status-IsSound row existing (ok status) r sound =
      elim (Bool-cases (same_status status row.status)) [
        | inl same ↦ rw same sound
        | inr changed ↦ rw changed (save_status-IsSound row.workspace_id status r sound)
      ]

  get_found-IsSound :
      (meanwhile : Registry → Registry) (row : Option WorkspaceRow)
      (existing : Result RegistryFailure (Option Value)) (r : Registry)
      → Keeps meanwhile
      → IsSound r
      → IsSound (get_found context meanwhile row existing r).1
  unfolding get_found
  get_found-IsSound meanwhile row (err e) r keeps sound = sound
  get_found-IsSound meanwhile (some row) (ok (some existing)) r keeps sound =
      inspected_status-IsSound row existing _ _ (keeps r sound)
  get_found-IsSound meanwhile none (ok (some existing)) r keeps sound = sound
  get_found-IsSound meanwhile none (ok none) r keeps sound = sound
  get_found-IsSound meanwhile (some row) (ok none) r keeps sound = sound

  module _ (around : Surroundings) (keeps : KeepsAround around) where
    open_prepared-IsSound :
        (prepared : Result RegistryFailure (ManagedWorktreeRegistration × Text)) (r : Registry)
        → IsSound r
        → IsSound (open_prepared context around prepared r).1
    unfolding open_prepared
    open_prepared-IsSound (err e) r sound = sound
    open_prepared-IsSound (ok (registration, managed_root)) r sound =
        open_registration-IsSound context around keeps registration managed_root _ _
          (keeps.others preparing r sound)

    open_mode-IsSound :
        (mode : WorkspaceMode) (requested : Text) (base_ref : Option Text) (r : Registry)
        → IsSound r
        → IsSound (open_mode context around mode requested base_ref r).1
    unfolding open_mode open_worktree
    open_mode-IsSound checkout requested base_ref r sound =
        open_checkout-IsSound requested base_ref r sound
    open_mode-IsSound worktree requested none r sound = open_prepared-IsSound _ r sound
    open_mode-IsSound worktree requested (some base_ref) r sound = open_prepared-IsSound _ r sound

    open_workspace-IsSound :
        (requested : Text) (mode : WorkspaceMode) (base_ref : Option Text) (r : Registry)
        → IsSound r
        → IsSound (open_workspace context around requested mode base_ref r).1
    unfolding open_workspace
    open_workspace-IsSound requested mode base_ref r sound =
        elim (Bool-cases (length requested == 0)) [
          | inl empty ↦ rw empty sound
          | inr named ↦ rw named (open_mode-IsSound mode requested base_ref r sound)
        ]

-- A call, with what it meets.
pub data Call : Type 0 where
  open_call :
      (context : RegistryContext) (around : Surroundings) (requested : Text) (mode : WorkspaceMode)
      (base_ref : Option Text)
      → Call
  get_call : (context : RegistryContext) (meanwhile : Registry → Registry) (id : Text) → Call

unfoldable pub call_once : Call → Registry → Registry
unfolding open_workspace get_record
call_once (open_call context around requested mode base_ref) r =
    (open_workspace context around requested mode base_ref r).1
call_once (get_call context meanwhile id) r = (get_record context meanwhile id r).1

unfoldable pub call_all : List Call → Registry → Registry
unfolding call_once
call_all [] r = r
call_all (call ∷ calls) r = call_all calls (call_once call r)

-- What other calls do during the awaits of a call keeps the tables sound.
abbrev pub KeepsMeanwhile : Call → Type 0
KeepsMeanwhile (open_call context around requested mode base_ref) = KeepsAround around
KeepsMeanwhile (get_call context meanwhile id) = Keeps meanwhile

call_once-IsSound :
    (call : Call) (r : Registry) → KeepsMeanwhile call → IsSound r → IsSound (call_once call r)
unfolding call_once get_record
call_once-IsSound (open_call context around requested mode base_ref) r keeps sound =
    open_workspace-IsSound context around keeps requested mode base_ref r sound
call_once-IsSound (get_call context meanwhile id) r keeps sound =
    get_found-IsSound context meanwhile _ _ r keeps sound

-- Whatever calls of `open`, in both modes, and of `get` run one after the other, and whatever others
-- do during their awaits, if that keeps the tables sound: the tables stay sound. Ids, places and
-- ownership keys are unique, versions are positive, each managed worktree has its workspace and the
-- event of its registration, and Git was called to make a worktree only for a key with a
-- create-intent in the journal.
pub call_all-IsSound :
    (calls : List Call) (r : Registry)
    → All KeepsMeanwhile calls
    → IsSound r
    → IsSound (call_all calls r)
unfolding call_all
call_all-IsSound [] r keeps sound = sound
call_all-IsSound (call ∷ calls) r (here, later) sound =
    call_all-IsSound calls _ later (call_once-IsSound call r here sound)
