-- ===== src/Workspace/Directories.antt =====
-- The directories of a workspace, packages/workspace/src/index.ts: `resolveWorkspaceDirectory`,
-- `findRepoRoot`, `inspectPersistedWorkspacePath`, `canonicalizePotentialPath` and the errors of
-- paths. The calls of Node's path and file modules are the parameter `Disk`.
pub mod Ancestors
use benchhand.Prelude.{
  ℕ, zero, suc, String, Bool, true, false, ◌||◌, ◌&&◌, not, Option, none, some, List, [], ◌∷◌, ◌++◌,
  if◌then◌else◌, length, Result, ok, err, ◌>>=◌,
}
use benchhand.Prelude.Text.{Text, codes, text_eq, starts_with}
use benchhand.Contracts.Schema.{Thrown, WorkspaceStatus, available, missing, inaccessible, invalid}

-- The `code` of a system error; another error is kept.
pub data PathFault : Type 0 where
  enoent enotdir eacces eperm : PathFault
  other_fault : Thrown → PathFault

-- `WorkspaceRegistryError`, whose message is left out, and what else the registry throws.
-- `unfinished` stands for a loop that is cut off.
pub data RegistryFailure : Type 0 where
  registry_error : (code : String) (path : Text) → RegistryFailure
  thrown_error : Thrown → RegistryFailure
  fault : PathFault → RegistryFailure
  unfinished : RegistryFailure

-- What `stat` says of a path, with the numbers printed.
pub record Stats : Type 0 where
  pub is_directory : Bool
  pub dev : Text
  pub ino : Text
  pub birthtime_ns : Text

pub record Disk : Type 0 where
  pub realpath : Text → Result PathFault Text
  pub stat : Text → Result PathFault Stats
  pub lstat : Text → Result PathFault (Unit {0})
  pub mkdir : Text → Result PathFault (Unit {0})
  pub dirname : Text → Text
  pub basename : Text → Text
  pub root_of : Text → Text
  pub join_path : Text → Text → Text
  pub resolve_path : Text → Text
  pub relative_path : Text → Text → Text
  pub is_absolute : Text → Bool
  pub separator : Text

unfoldable pub classify_open_path_error : Text → PathFault → RegistryFailure
classify_open_path_error path enoent = registry_error "WORKSPACE_PATH_NOT_FOUND" path
classify_open_path_error path eacces = registry_error "WORKSPACE_PATH_INACCESSIBLE" path
classify_open_path_error path eperm = registry_error "WORKSPACE_PATH_INACCESSIBLE" path
classify_open_path_error path enotdir = registry_error "WORKSPACE_PATH_NOT_DIRECTORY" path
classify_open_path_error path (other_fault e) = registry_error "WORKSPACE_PATH_FAILURE" path

unfoldable pub filesystem_identity_from_stats : Stats → Text
filesystem_identity_from_stats stats = stats.dev ++ 58 ∷ stats.ino ++ 58 ∷ stats.birthtime_ns

pub record WorkspaceDirectory : Type 0 where
  pub canonical_path : Text
  pub filesystem_identity : Text

unfoldable pub directory_of :
    (requested canonical : Text)
    → Result PathFault Stats
    → Result RegistryFailure WorkspaceDirectory
unfolding classify_open_path_error filesystem_identity_from_stats
directory_of requested canonical (err e) = err (classify_open_path_error requested e)
directory_of requested canonical (ok stats) =
    if stats.is_directory
    then ok (record {
      canonical_path = canonical;
      filesystem_identity = filesystem_identity_from_stats stats;
    })
    else err (registry_error "WORKSPACE_PATH_NOT_DIRECTORY" requested)

unfoldable pub persisted_status :
    (expected : Text) → Result PathFault Stats → Result RegistryFailure WorkspaceStatus
unfolding filesystem_identity_from_stats
persisted_status expected (ok stats) =
    if stats.is_directory
    then if text_eq (filesystem_identity_from_stats stats) expected
      then ok available
      else ok invalid
    else ok invalid
persisted_status expected (err enoent) = ok missing
persisted_status expected (err enotdir) = ok missing
persisted_status expected (err eacces) = ok inaccessible
persisted_status expected (err eperm) = ok inaccessible
persisted_status expected (err (other_fault e)) = err (thrown_error e)

module _ (disk : Disk) where
  unfoldable pub canonical_directory :
      (requested : Text) → Result PathFault Text → Result RegistryFailure WorkspaceDirectory
  unfolding directory_of classify_open_path_error
  canonical_directory requested (err e) = err (classify_open_path_error requested e)
  canonical_directory requested (ok canonical) =
      directory_of requested canonical (disk.stat canonical)

  unfoldable pub resolve_workspace_directory : Text → Result RegistryFailure WorkspaceDirectory
  unfolding canonical_directory
  resolve_workspace_directory requested = canonical_directory requested (disk.realpath requested)

  unfoldable pub inspect_persisted_workspace_path :
      (canonical expected : Text) → Result RegistryFailure WorkspaceStatus
  unfolding persisted_status
  inspect_persisted_workspace_path canonical expected =
      persisted_status expected (disk.stat canonical)

  -- The end of a round of `findRepoRoot` that has found no `.git`.
  unfoldable pub go_up :
      (root current : Text)
      → Option (Result PathFault (Option Text))
      → Option (Result PathFault (Option Text))
  go_up root current later =
      if text_eq current root || text_eq (disk.dirname current) current
      then some (ok none)
      else later

  unfoldable pub looked_for_git :
      (root current : Text)
      → Result PathFault (Unit {0})
      → (later : Option (Result PathFault (Option Text))) → Option (Result PathFault (Option Text))
  unfolding go_up
  looked_for_git root current (ok _) later = some (ok (some current))
  looked_for_git root current (err enoent) later = go_up root current later
  looked_for_git root current (err enotdir) later = go_up root current later
  looked_for_git root current (err eacces) later = some (ok none)
  looked_for_git root current (err eperm) later = some (ok none)
  looked_for_git root current (err (other_fault e)) later = some (err (other_fault e))

  -- The loop of `findRepoRoot`, where `none` is the end of the fuel.
  unfoldable pub repo_root_from :
      (fuel : ℕ) → (root current : Text) → Option (Result PathFault (Option Text))
  unfolding looked_for_git
  repo_root_from zero root current = none
  repo_root_from (suc fuel) root current =
      let later = repo_root_from fuel root (disk.dirname current) in
      looked_for_git root current (disk.lstat (disk.join_path current (codes ".git"))) later

  unfoldable pub find_repo_root : Text → Option (Result PathFault (Option Text))
  unfolding repo_root_from
  find_repo_root path = repo_root_from (suc (length path)) (disk.root_of path) path

  join_all : Text → List Text → Text
  join_all path [] = path
  join_all path (name ∷ names) = join_all (disk.join_path path name) names

  unfoldable pub canonicalized :
      (cursor : Text) (suffix : List Text)
      → Result PathFault Text
      → (later : Option (Result PathFault Text)) → Option (Result PathFault Text)
  unfolding join_all
  canonicalized cursor suffix (ok existing) later = some (ok (join_all existing suffix))
  canonicalized cursor suffix (err enoent) later =
      if text_eq (disk.dirname cursor) cursor then some (err enoent) else later
  canonicalized cursor suffix (err e) later = some (err e)

  -- The loop of `canonicalizePotentialPath`
  unfoldable pub canonicalize_from :
      (fuel : ℕ) → (cursor : Text) → (suffix : List Text) → Option (Result PathFault Text)
  unfolding canonicalized
  canonicalize_from zero cursor suffix = none
  canonicalize_from (suc fuel) cursor suffix =
      let later = canonicalize_from fuel (disk.dirname cursor) (disk.basename cursor ∷ suffix) in
      canonicalized cursor suffix (disk.realpath cursor) later

  unfoldable pub canonicalize_potential_path : Text → Option (Result PathFault Text)
  unfolding canonicalize_from
  canonicalize_potential_path path =
      let start = disk.resolve_path path in canonicalize_from (suc (length start)) start []

  unfoldable pub is_same_or_descendant_path : (parent candidate : Text) → Bool
  is_same_or_descendant_path parent candidate =
      let from_parent = disk.relative_path parent candidate in
      text_eq from_parent []
      || (not (text_eq from_parent (codes ".."))
          && (not (starts_with from_parent (codes ".." ++ disk.separator))
              && not (disk.is_absolute from_parent)))

-- A loop that is cut off, or an error that is thrown on.
unfoldable pub finished_loop : {A : Type 0} → Option (Result PathFault A) → Result RegistryFailure A
finished_loop none = err unfinished
finished_loop (some (err e)) = err (fault e)
finished_loop (some (ok a)) = ok a
