-- ===== src/Workspace/Tests.antt =====
-- A registry on a disk on which every path is a directory, and a parent is a path less its first
-- unit.
use benchhand.Prelude.{
  ℕ, suc, String, Bool, true, false, Option, none, some, List, [], ◌∷◌, ◌++◌, ◌==◌, ◌<◌, ◌+◌, ◌≡◌,
  refl, ◌⊎◌, inl, inr, arith, drop, length, if◌then◌else◌, Result, ok, err,
}
use benchhand.Prelude.Text.{Text}
use benchhand.Contracts.Value.{Value}
use benchhand.Contracts.Schema.{WorkspaceMode, checkout, available}
use benchhand.Workspace.Directories.{
  Disk, PathFault, enoent, RegistryFailure, registry_error, find_repo_root,
}
use benchhand.Workspace.Directories.Ancestors.{IsParent, IsNearest, find_repo_root-IsNearest}
use benchhand.Workspace.Registry.{WorkspaceRow, Registry, row_to_workspace_record, workspace_record}
use benchhand.Workspace.Checkouts.{RegistryContext, open_checkout, located_row}
use benchhand.Workspace.Worktrees.{Look}
use benchhand.Workspace.Worktrees.Known.{Surroundings}
use benchhand.Workspace.Invariants.{IsSound}
use benchhand.Workspace.Invariants.Kept.{KeepsAtLook, KeepsAround}
use benchhand.Workspace.Invariants.Calls.{Call, open_call, call_all, call_all-IsSound}
use benchhand.Workspace.Reopened.{row_at_place, open_checkout_again}

abbrev flat_disk : Disk
flat_disk = record {
  realpath = λ path. ok path;
  stat = λ path. ok (record { is_directory = true; dev = 1 ∷ []; ino = path; birthtime_ns = [] });
  lstat = λ path. if length path == 5 then ok tt else err enoent;
  mkdir = λ path. ok tt;
  dirname = λ path. drop 1 path;
  basename = λ path. path;
  root_of = λ path. [];
  join_path = λ path name. path ++ name;
  resolve_path = λ path. path;
  relative_path = λ parent candidate. candidate;
  is_absolute = λ path. true;
  separator = 47 ∷ [];
}

shorter_or_same :
    (path : Text)
    → flat_disk.is_absolute path ≡ true
    → (drop 1 path ≡ path) ⊎ (length (drop 1 path) < length path)
shorter_or_same [] rooted = inl refl
shorter_or_same (c ∷ path) rooted = inr (omega arith)

flat_disk-IsParent : IsParent flat_disk
flat_disk-IsParent = record {
  shorter = shorter_or_same;
  stays_absolute = λ path rooted. refl;
  resolves = λ path. refl;
}

find_repo_root-IsNearest_example :
    (answer : Result PathFault (Option Text)) × (find_repo_root flat_disk (97 ∷ 98 ∷ 99 ∷ [])
      ≡ some answer)
    × IsNearest flat_disk (97 ∷ 98 ∷ 99 ∷ []) answer
find_repo_root-IsNearest_example =
    find_repo_root-IsNearest flat_disk flat_disk-IsParent (97 ∷ 98 ∷ 99 ∷ []) refl

find_repo_root_test : find_repo_root flat_disk (97 ∷ 98 ∷ 99 ∷ []) ≡ some (ok (some (99 ∷ [])))
unfolding find_repo_root benchhand.Prelude.Text.text_eq
find_repo_root_test = refl

abbrev first_context : RegistryContext
first_context = record {
  disk = flat_disk;
  check = λ schema v. true;
  as_string = λ text. "text";
  owner_instance = none;
  worktree_root = some (98 ∷ []);
  timestamp = 49 ∷ [];
  candidate_id = 119 ∷ [];
}

abbrev second_context : RegistryContext
second_context = record first_context { timestamp = 50 ∷ []; candidate_id = 120 ∷ [] }

abbrev empty_registry : Registry
empty_registry = record { workspaces = []; managed = []; journal = []; creations = [] }

abbrev no_look : Look
no_look = record {
  before = λ r. r;
  canonical_expected = none;
  worktrees = ok [];
  realpath_of = λ path. none;
  directory = err (registry_error "WORKSPACE_PATH_NOT_FOUND" []);
  meanwhile = λ r. r;
}

abbrev quiet_surroundings : Surroundings
quiet_surroundings = record {
  digest = λ text. text;
  resolve_git_commit = λ repo base_ref. ok (97 ∷ []);
  read_local_branch_commit = λ repo branch. ok none;
  create_locked_worktree = λ registration. ok tt;
  others = λ moment r. r;
  occupied_look = no_look;
  waiting_looks = λ n. no_look;
  failed_look = no_look;
  created_look = no_look;
}

no_look-KeepsAtLook : KeepsAtLook no_look
no_look-KeepsAtLook = record { before = λ r sound. sound; meanwhile = λ r sound. sound }

quiet_surroundings-KeepsAround : KeepsAround quiet_surroundings
quiet_surroundings-KeepsAround = record {
  others = λ moment r sound. sound;
  occupied_look = no_look-KeepsAtLook;
  waiting_looks = λ n. no_look-KeepsAtLook;
  failed_look = no_look-KeepsAtLook;
  created_look = no_look-KeepsAtLook;
}

empty_registry-IsSound : IsSound empty_registry
unfolding benchhand.Storage.Table.count_where
empty_registry-IsSound = record {
  ids = λ id. omega arith;
  places = λ canonical identity mode. omega arith;
  versions = tt;
  keys = λ key. omega arith;
  owned = tt;
  intended = tt;
}

abbrev two_calls : List Call
two_calls =
    open_call first_context quiet_surroundings (97 ∷ []) checkout none
    ∷ open_call second_context quiet_surroundings (97 ∷ []) WorkspaceMode.worktree none
    ∷ []

call_all-IsSound_example : IsSound (call_all two_calls empty_registry)
call_all-IsSound_example =
    call_all-IsSound two_calls empty_registry
      (quiet_surroundings-KeepsAround, (quiet_surroundings-KeepsAround, tt)) empty_registry-IsSound

abbrev first_row : WorkspaceRow
first_row = record {
  workspace_id = 119 ∷ [];
  canonical_path = 97 ∷ [];
  requested_path = 97 ∷ [];
  filesystem_identity = 1 ∷ 58 ∷ 97 ∷ 58 ∷ [];
  mode = checkout;
  repo_root = some (97 ∷ []);
  worktree_path = none;
  base_ref = none;
  branch = none;
  created_at = 49 ∷ [];
  last_used_at = 49 ∷ [];
  owner_instance = none;
  status = available;
  metadata_version = 1;
}

abbrev first_state : Registry
first_state = (open_checkout first_context (97 ∷ []) none empty_registry).1

abbrev second_answer : Result RegistryFailure Value × Registry
second_answer = open_checkout second_context (97 ∷ []) none first_state

open_checkout_again_example :
    (row row' : WorkspaceRow) × (row_at_place first_row first_state ≡ some row)
    × (row_to_workspace_record first_context.check first_context.as_string row
        ≡ ok (workspace_record first_context.check first_context.as_string first_row))
    × (row_at_place first_row second_answer.1 ≡ some row')
    × (row'.workspace_id ≡ row.workspace_id)
    × (row'.created_at ≡ row.created_at)
    × (row'.metadata_version ≡ row.metadata_version + 1)
    × (row'.requested_path ≡ second_context.disk.resolve_path (97 ∷ []))
    × (row'.status ≡ available)
    × (second_answer.0 ≡ row_to_workspace_record second_context.check second_context.as_string row')
unfolding located_row open_checkout benchhand.Contracts.Value.is_json_value
    benchhand.Prelude.Text.text_eq
open_checkout_again_example =
    open_checkout_again first_context second_context (97 ∷ []) (97 ∷ []) empty_registry first_row
      (record first_row { workspace_id = 120 ∷ []; created_at = 50 ∷ []; last_used_at = 50 ∷ [] })
      (workspace_record first_context.check first_context.as_string first_row) refl refl refl refl
      refl
