-- ===== src/Workspace/Checkouts.antt =====
-- `open` in checkout mode and `get` of `WorkspaceRegistry`, packages/workspace/src/index.ts.
use benchhand.Prelude.{
  String, Bool, Option, none, some, List, [], ◌∷◌, ◌++◌, ◌==◌, if◌then◌else◌, find, any, length,
  Result, ok, err, ◌>>=◌, throw_if, Exec, ◌+◌,
}
use benchhand.Prelude.Text.{Text}
use benchhand.Contracts.Value.{Value}
use benchhand.Contracts.Schema.{Schema, error_object, checkout, WorkspaceStatus, available}
use benchhand.Storage.Table.{update_where, count_where}
use benchhand.Workspace.Directories.{
  Disk, RegistryFailure, registry_error, thrown_error, WorkspaceDirectory,
  resolve_workspace_directory, find_repo_root, finished_loop, inspect_persisted_workspace_path,
}
use benchhand.Workspace.Registry.{
  WorkspaceRow, Registry, same_place, has_workspace_id, constraint_failed, same_status,
  row_to_workspace_record,
}

-- What a registry is made with, and the clock and the id generator at one call.
pub record RegistryContext : Type 0 where
  pub disk : Disk
  pub check : Schema → Value → Bool
  pub as_string : Text → String
  pub owner_instance : Option Text
  pub worktree_root : Option Text
  pub timestamp : Text
  pub candidate_id : Text

-- The constructor's check of its options.
unfoldable pub check_owner_instance : Option Text → Result RegistryFailure (Unit {0})
check_owner_instance none = ok tt
check_owner_instance (some owner) =
    throw_if (length owner == 0)
      (thrown_error (error_object "TypeError" "ownerInstance must not be empty"))

-- `DO UPDATE SET …`
unfoldable pub touch : WorkspaceRow → WorkspaceRow → WorkspaceRow
touch excluded row = record row {
  requested_path = excluded.requested_path;
  repo_root = excluded.repo_root;
  last_used_at = excluded.last_used_at;
  owner_instance = excluded.owner_instance;
  status = available;
  metadata_version = row.metadata_version + 1;
}

-- `INSERT … ON CONFLICT(canonical_path, filesystem_identity, mode) DO UPDATE … RETURNING *`; a
-- taken id violates the primary key.
unfoldable pub placed_row :
    WorkspaceRow → Option WorkspaceRow → Exec (List WorkspaceRow) RegistryFailure WorkspaceRow
unfolding touch update_where
placed_row new (some old) rows = (
  ok (touch new old),
  update_where (same_place new.canonical_path new.filesystem_identity new.mode) (touch new) rows,
)
placed_row new none rows =
    if any (has_workspace_id new.workspace_id) rows
    then (err constraint_failed, rows)
    else (ok new, rows ++ new ∷ [])

unfoldable pub upsert_workspace :
    WorkspaceRow → Exec (List WorkspaceRow) RegistryFailure WorkspaceRow
unfolding placed_row
upsert_workspace new rows =
    placed_row new (find (same_place new.canonical_path new.filesystem_identity new.mode) rows) rows

module _ (context : RegistryContext) where
  unfoldable pub checkout_row : (absolute : Text) → WorkspaceDirectory → Option Text → WorkspaceRow
  checkout_row absolute directory repo_root = record {
    workspace_id = context.candidate_id;
    canonical_path = directory.canonical_path;
    requested_path = absolute;
    filesystem_identity = directory.filesystem_identity;
    mode = checkout;
    repo_root = repo_root;
    worktree_path = none;
    base_ref = none;
    branch = none;
    created_at = context.timestamp;
    last_used_at = context.timestamp;
    owner_instance = context.owner_instance;
    status = available;
    metadata_version = 1;
  }

  -- The row to put in, once the directory and its repository are known.
  unfoldable pub row_in :
      (absolute : Text)
      → WorkspaceDirectory
      → Result RegistryFailure (Option Text)
      → Result RegistryFailure WorkspaceRow
  unfolding checkout_row
  row_in absolute directory (err e) = err e
  row_in absolute directory (ok repo_root) = ok (checkout_row absolute directory repo_root)

  unfoldable pub row_for :
      (absolute : Text)
      → Result RegistryFailure WorkspaceDirectory
      → Result RegistryFailure WorkspaceRow
  unfolding row_in find_repo_root finished_loop
  row_for absolute (err e) = err e
  row_for absolute (ok directory) =
      row_in absolute directory
        (finished_loop (find_repo_root context.disk directory.canonical_path))

  unfoldable pub located_row : (requested : Text) → Result RegistryFailure WorkspaceRow
  unfolding row_for resolve_workspace_directory
  located_row requested =
      row_for (context.disk.resolve_path requested)
        (resolve_workspace_directory context.disk (context.disk.resolve_path requested))

  unfoldable pub upserted :
      Registry
      → Result RegistryFailure WorkspaceRow × List WorkspaceRow
      → Result RegistryFailure Value × Registry
  unfolding row_to_workspace_record
  upserted r (err e, rows) = (err e, r)
  upserted r (ok row, rows) =
      (row_to_workspace_record context.check context.as_string row, record r { workspaces = rows })

  unfoldable pub open_located :
      Result RegistryFailure WorkspaceRow → Exec Registry RegistryFailure Value
  unfolding upserted upsert_workspace
  open_located (err e) r = (err e, r)
  open_located (ok row) r = upserted r (upsert_workspace row r.workspaces)

  -- `open` in checkout mode, with the path that is not empty
  unfoldable pub open_checkout :
      (requested : Text) → (base_ref : Option Text) → Exec Registry RegistryFailure Value
  unfolding open_located located_row
  open_checkout requested none r = open_located (located_row requested) r
  open_checkout requested (some base_ref) r =
      (err (registry_error "WORKSPACE_BASE_REF_REQUIRES_WORKTREE" requested), r)

  -- `#read`
  unfoldable pub read_row : Option WorkspaceRow → Result RegistryFailure (Option Value)
  unfolding row_to_workspace_record
  read_row none = ok none
  read_row (some row) = do
    workspace ← row_to_workspace_record context.check context.as_string row
    ok (some workspace)

  unfoldable pub read_workspace : Text → Registry → Result RegistryFailure (Option Value)
  unfolding read_row
  read_workspace id r = read_row (find (has_workspace_id id) r.workspaces)

  unfoldable pub revalidate : WorkspaceStatus → WorkspaceRow → WorkspaceRow
  revalidate status row = record row {
    status = status;
    metadata_version = row.metadata_version + 1;
  }

  -- The UPDATE of `get` and what it reads afterwards.
  unfoldable pub save_status :
      (id : Text) → WorkspaceStatus → Exec Registry RegistryFailure (Option Value)
  unfolding read_workspace revalidate update_where count_where
  save_status id status r =
      let r' = record r {
        workspaces = update_where (has_workspace_id id) (revalidate status) r.workspaces;
      } in
      if count_where (has_workspace_id id) r.workspaces == 1 then (read_workspace id r', r') else (
        err (thrown_error (error_object "Error" "workspace disappeared during revalidation")),
        r',
      )

  unfoldable pub inspected_status :
      (row : WorkspaceRow)
      → (existing : Value) → Result RegistryFailure WorkspaceStatus
      → Exec Registry RegistryFailure (Option Value)
  unfolding save_status same_status
  inspected_status row existing (err e) r = (err e, r)
  inspected_status row existing (ok status) r =
      if same_status status row.status
      then (ok (some existing), r)
      else save_status row.workspace_id status r

  unfoldable pub get_found :
      (meanwhile : Registry → Registry)
      → Option WorkspaceRow
      → Result RegistryFailure (Option Value)
      → Exec Registry RegistryFailure (Option Value)
  unfolding inspected_status inspect_persisted_workspace_path
  get_found meanwhile row (err e) r = (err e, r)
  get_found meanwhile (some row) (ok (some existing)) r =
      inspected_status row existing
        (inspect_persisted_workspace_path context.disk row.canonical_path row.filesystem_identity)
        (meanwhile r)
  get_found meanwhile row (ok existing) r = (ok none, r)

  -- `get`: `meanwhile` is what other calls do while the path is inspected.
  unfoldable pub get_record :
      (meanwhile : Registry → Registry) → (id : Text) → Exec Registry RegistryFailure (Option Value)
  unfolding get_found read_workspace
  get_record meanwhile id r =
      get_found meanwhile (find (has_workspace_id id) r.workspaces) (read_workspace id r) r
