-- ===== src/Workspace/Registry.antt =====
-- The tables of packages/workspace/src/index.ts and the statements that `WorkspaceRegistry` runs on
-- them; a table is the list of its rows.
use benchhand.Prelude.{
  ℕ, String, Bool, true, false, ◌&&◌, Option, none, some, List, [], ◌∷◌, ◌++◌, any, Result, ok, err,
}
use benchhand.Prelude.Text.{Text, text_eq}
use benchhand.Contracts.Value.{Value, num, nat, str, null, obj, field, end}
use benchhand.Contracts.Schema.{
  Schema, Thrown, error_object, WorkspaceMode, checkout, worktree, WorkspaceStatus, available,
  missing, inaccessible, invalid, parse_workspace_record,
}
use benchhand.Workspace.Directories.{RegistryFailure, thrown_error}

pub record WorkspaceRow : Type 0 where
  pub workspace_id : Text
  pub canonical_path : Text
  pub requested_path : Text
  pub filesystem_identity : Text
  pub mode : WorkspaceMode
  pub repo_root : Option Text
  pub worktree_path : Option Text
  pub base_ref : Option Text
  pub branch : Option Text
  pub created_at : Text
  pub last_used_at : Text
  pub owner_instance : Option Text
  pub status : WorkspaceStatus
  pub metadata_version : ℕ

pub data ManagedStatus : Type 0 where
  active cleanup_required : ManagedStatus

pub record ManagedWorktreeRow : Type 0 where
  pub ownership_key : Text
  pub managed_workspace_id : Text
  pub source_repo_root : Text
  pub source_filesystem_identity : Text
  pub requested_base_ref : Text
  pub base_commit : Text
  pub managed_branch : Text
  pub managed_path : Text
  pub managed_status : ManagedStatus

pub data JournalAction : Type 0 where
  create_intent created create_failed cleanup_intent cleaned cleanup_failed : JournalAction
  reconciled : JournalAction

-- An event; its details are left out, since no code reads them.
pub record WorktreeEvent : Type 0 where
  pub event_key : Text
  pub event_workspace : Option Text
  pub action : JournalAction

-- `creations` records the calls of `createLockedWorktree`, newest first, by their ownership key.
pub record Registry : Type 0 where
  pub workspaces : List WorkspaceRow
  pub managed : List ManagedWorktreeRow
  pub journal : List WorktreeEvent
  pub creations : List Text

unfoldable pub same_mode : WorkspaceMode → WorkspaceMode → Bool
same_mode checkout checkout = true
same_mode worktree worktree = true
same_mode _ _ = false

unfoldable pub same_status : WorkspaceStatus → WorkspaceStatus → Bool
same_status available available = true
same_status missing missing = true
same_status inaccessible inaccessible = true
same_status invalid invalid = true
same_status _ _ = false

unfoldable pub same_action : JournalAction → JournalAction → Bool
same_action create_intent create_intent = true
same_action created created = true
same_action create_failed create_failed = true
same_action cleanup_intent cleanup_intent = true
same_action cleaned cleaned = true
same_action cleanup_failed cleanup_failed = true
same_action reconciled reconciled = true
same_action _ _ = false

unfoldable pub is_active : ManagedStatus → Bool
is_active active = true
is_active cleanup_required = false

-- `workspace_id = ?`
abbrev pub has_workspace_id : Text → WorkspaceRow → Bool
has_workspace_id id row = text_eq row.workspace_id id

-- `UNIQUE(canonical_path, filesystem_identity, mode)`
abbrev pub same_place : (canonical identity : Text) → WorkspaceMode → WorkspaceRow → Bool
same_place canonical identity mode row =
    text_eq row.canonical_path canonical
    && (text_eq row.filesystem_identity identity && same_mode row.mode mode)

abbrev pub has_ownership_key : Text → ManagedWorktreeRow → Bool
has_ownership_key key row = text_eq row.ownership_key key

-- The error of a violated constraint.
abbrev pub constraint_failed : RegistryFailure
constraint_failed = thrown_error (error_object "Error" "UNIQUE constraint failed")

mode_text : WorkspaceMode → String
mode_text checkout = "checkout"
mode_text worktree = "worktree"

status_text : WorkspaceStatus → String
status_text available = "available"
status_text missing = "missing"
status_text inaccessible = "inaccessible"
status_text invalid = "invalid"

unfoldable pub append_worktree_journal :
    (key : Text) (workspace : Option Text) (action : JournalAction) → Registry → Registry
append_worktree_journal key workspace action r = record r {
  journal =
      r.journal ++ record { event_key = key; event_workspace = workspace; action = action } ∷ [];
}

unfoldable pub has_worktree_journal_action : (key : Text) (action : JournalAction) → Registry → Bool
unfolding same_action
has_worktree_journal_action key action r =
    any (λ event. text_eq event.event_key key && same_action event.action action) r.journal

unfoldable pub as_registry_failure : {A : Type 0} → Result Thrown A → Result RegistryFailure A
as_registry_failure (err e) = err (thrown_error e)
as_registry_failure (ok a) = ok a

-- `rowToWorkspaceRecord`: `as_string` is a text as the schemas see it.
module _ (check : Schema → Value → Bool) (as_string : Text → String) where
  text_value : Text → Value
  text_value text = str (as_string text)

  nullable_value : Option Text → Value
  unfolding text_value
  nullable_value none = null
  nullable_value (some text) = text_value text

  unfoldable pub workspace_record : WorkspaceRow → Value
  unfolding text_value nullable_value mode_text status_text
  workspace_record row = obj true (
      field "workspaceId" (text_value row.workspace_id) (
        field "canonicalPath" (text_value row.canonical_path) (
          field "requestedPath" (text_value row.requested_path) (
            field "mode" (str (mode_text row.mode)) (
              field "repoRoot" (nullable_value row.repo_root) (
                field "worktreePath" (nullable_value row.worktree_path) (
                  field "baseRef" (nullable_value row.base_ref) (
                    field "branch" (nullable_value row.branch) (
                      field "createdAt" (text_value row.created_at) (
                        field "lastUsedAt" (text_value row.last_used_at) (
                          field "ownerInstance" (nullable_value row.owner_instance) (
                            field "status" (str (status_text row.status)) (
                              field "metadataVersion" (num (nat row.metadata_version))
                                end)))))))))))))

  unfoldable pub row_to_workspace_record : WorkspaceRow → Result RegistryFailure Value
  unfolding workspace_record parse_workspace_record as_registry_failure
  row_to_workspace_record row =
      as_registry_failure (parse_workspace_record check (workspace_record row))
