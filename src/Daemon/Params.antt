-- ===== src/Daemon/Params.antt =====
-- The readers of the request parameters, packages/daemon/src/index.ts. A value comes from
-- `JSON.parse` and has passed `parseRpcRequest`: an array has none of the keys that are read.
pub mod Edits
use Prim.Native.String
use benchhand.Prelude.{
  ℕ, String, Bool, true, false, ◌||◌, Option, none, some, List, [], ◌∷◌, if◌then◌else◌, str_eq,
  Result, ok, err, ◌>>=◌, ◌>>◌, throw_if, or_throw,
}
use benchhand.Contracts.Value.{
  Number, Value, null, undefined, str, num, obj, arr, Fields, Items, nil, cons, get_field,
  or_undefined,
}
use benchhand.Contracts.Schema.{WorkspaceMode, checkout, worktree, parse_entity_id}
use benchhand.Daemon.{Failure, invalid_params, throw_on}

infixr 60 ◌++ₛ◌
abbrev ◌++ₛ◌ : String → String → String
s ++ₛ t = String.◌++◌ s t

unfoldable pub read_params_object : Value → (method : String) → Result Failure Fields
read_params_object (obj plain fields) method = ok fields
read_params_object _ method = err (invalid_params (method ++ₛ " requires object params"))

-- `value[key]` with `undefined` for an absent key
unfoldable pub entry_of : String → Fields → Value
unfolding get_field
entry_of key fields = or_undefined (get_field key fields)

unfoldable pub read_workspace_id_value : Value → (method : String) → Result Failure String
unfolding throw_on parse_entity_id
read_workspace_id_value (str value) method = throw_on (parse_entity_id "workspace" value)
read_workspace_id_value _ method = err (invalid_params (method ++ₛ " requires params.workspaceId"))

unfoldable pub read_required_string : Value → (label : String) → Result Failure String
read_required_string (str value) label = ok value
read_required_string _ label = err (invalid_params (label ++ₛ " must be a string"))

unfoldable pub optional_string : Fields → (key : String) → Result Failure (Option String)
unfolding entry_of
optional_string value key = elim (entry_of key value) [
  | undefined ↦ ok none
  | str s ↦ ok (some s)
  | _ ↦ err (invalid_params (key ++ₛ " must be a string"))
]

unfoldable pub optional_number : Fields → (key : String) → Result Failure (Option Number)
unfolding entry_of
optional_number value key = elim (entry_of key value) [
  | undefined ↦ ok none
  | num n ↦ ok (some n)
  | _ ↦ err (invalid_params (key ++ₛ " must be a number"))
]

pub record FileReadParams : Type 0 where
  pub workspace_id : String
  pub path : String
  pub offset : Option Number
  pub max_bytes : Option Number

unfoldable pub read_file_read_params : Value → Result Failure FileReadParams
unfolding read_params_object read_workspace_id_value read_required_string optional_number entry_of
read_file_read_params params = do
  value ← read_params_object params "file.read"
  workspace_id ← read_workspace_id_value (entry_of "workspaceId" value) "file.read"
  path ← read_required_string (entry_of "path" value) "file.read params.path"
  offset ← optional_number value "offset"
  max_bytes ← optional_number value "maxBytes"
  ok (record { workspace_id = workspace_id; path = path; offset = offset; max_bytes = max_bytes })

pub record FileListParams : Type 0 where
  pub workspace_id : String
  pub path : Option String
  pub limit : Option Number
  pub cursor : Option String

unfoldable pub read_file_list_params : Value → Result Failure FileListParams
unfolding read_params_object read_workspace_id_value optional_string optional_number entry_of
read_file_list_params params = do
  value ← read_params_object params "file.list"
  workspace_id ← read_workspace_id_value (entry_of "workspaceId" value) "file.list"
  path ← optional_string value "path"
  limit ← optional_number value "limit"
  cursor ← optional_string value "cursor"
  ok (record { workspace_id = workspace_id; path = path; limit = limit; cursor = cursor })

pub record FileSearchParams : Type 0 where
  pub workspace_id : String
  pub path : Option String
  pub glob : Option String
  pub query : Option String
  pub max_results : Option Number
  pub max_bytes : Option Number
  pub max_depth : Option Number
  pub max_file_bytes : Option Number

unfoldable pub read_file_search_params : Value → Result Failure FileSearchParams
unfolding read_params_object read_workspace_id_value optional_string optional_number entry_of
read_file_search_params params = do
  value ← read_params_object params "file.search"
  workspace_id ← read_workspace_id_value (entry_of "workspaceId" value) "file.search"
  path ← optional_string value "path"
  glob ← optional_string value "glob"
  query ← optional_string value "query"
  max_results ← optional_number value "maxResults"
  max_bytes ← optional_number value "maxBytes"
  max_depth ← optional_number value "maxDepth"
  max_file_bytes ← optional_number value "maxFileBytes"
  ok (record {
    workspace_id = workspace_id;
    path = path;
    glob = glob;
    query = query;
    max_results = max_results;
    max_bytes = max_bytes;
    max_depth = max_depth;
    max_file_bytes = max_file_bytes;
  })

-- `expectedSha256`, where the key can be absent, hold null or a string; an `undefined` under the
-- key is none of these, but no JSON text has one.
pub data ExpectedSha256 : Type 0 where
  unconditional new_file : ExpectedSha256
  digest_is : String → ExpectedSha256

unfoldable pub read_expected_sha256 : Option Value → Result Failure ExpectedSha256
read_expected_sha256 none = ok unconditional
read_expected_sha256 (some null) = ok new_file
read_expected_sha256 (some (str digest)) = ok (digest_is digest)
read_expected_sha256 (some _) =
    err (invalid_params "file.write params.expectedSha256 must be a string or null")

pub record FileWriteParams : Type 0 where
  pub workspace_id : String
  pub path : String
  pub content : String
  pub expected_sha256 : ExpectedSha256

unfoldable pub read_file_write_params : Value → Result Failure FileWriteParams
unfolding read_params_object read_workspace_id_value read_required_string read_expected_sha256
    entry_of get_field
read_file_write_params params = do
  value ← read_params_object params "file.write"
  workspace_id ← read_workspace_id_value (entry_of "workspaceId" value) "file.write"
  path ← read_required_string (entry_of "path" value) "file.write params.path"
  content ← read_required_string (entry_of "content" value) "file.write params.content"
  expected ← read_expected_sha256 (get_field "expectedSha256" value)
  ok (record {
    workspace_id = workspace_id;
    path = path;
    content = content;
    expected_sha256 = expected;
  })

pub record InstructionsResolveParams : Type 0 where
  pub workspace_id : String
  pub scope_path : Option String

unfoldable pub read_scope_path : Value → Result Failure (Option String)
read_scope_path undefined = ok none
read_scope_path (str scope_path) = ok (some scope_path)
read_scope_path _ = err (invalid_params "instructions.resolve params.scopePath must be a string")

unfoldable pub read_instructions_resolve_params : Value → Result Failure InstructionsResolveParams
unfolding read_params_object read_workspace_id_value read_scope_path entry_of
read_instructions_resolve_params params = do
  value ← read_params_object params "instructions.resolve"
  workspace_id ← read_workspace_id_value (entry_of "workspaceId" value) "instructions.resolve"
  scope_path ← read_scope_path (entry_of "scopePath" value)
  ok (record { workspace_id = workspace_id; scope_path = scope_path })

unfoldable pub read_skills_list_params : Value → Result Failure String
unfolding read_params_object read_workspace_id_value entry_of
read_skills_list_params params = do
  value ← read_params_object params "skills.list"
  read_workspace_id_value (entry_of "workspaceId" value) "skills.list"

pub record SkillsReadParams : Type 0 where
  pub workspace_id : String
  pub skill_id : String

unfoldable pub read_skill_id : Value → Result Failure String
read_skill_id (str skill_id) =
    throw_if (str_eq skill_id "") (invalid_params "skills.read requires params.skillId")
    >> ok skill_id
read_skill_id _ = err (invalid_params "skills.read requires params.skillId")

unfoldable pub read_skills_read_params : Value → Result Failure SkillsReadParams
unfolding read_params_object read_workspace_id_value read_skill_id entry_of
read_skills_read_params params = do
  value ← read_params_object params "skills.read"
  workspace_id ← read_workspace_id_value (entry_of "workspaceId" value) "skills.read"
  skill_id ← read_skill_id (entry_of "skillId" value)
  ok (record { workspace_id = workspace_id; skill_id = skill_id })

-- `key in params` for a value that is an object
unfoldable pub member : String → Value → Option Value
unfolding get_field
member key (obj plain fields) = get_field key fields
member key _ = none

unfoldable pub read_open_path : Option Value → Result Failure String
read_open_path (some (str path)) =
    throw_if (str_eq path "") (invalid_params "workspace.open requires params.path") >> ok path
read_open_path _ = err (invalid_params "workspace.open requires params.path")

unfoldable pub mode_of_text : String → Result Failure WorkspaceMode
mode_of_text text =
    if str_eq text "checkout"
    then ok checkout
    else if str_eq text "worktree"
    then ok worktree
    else err (invalid_params "workspace.open params.mode must be checkout or worktree")

unfoldable pub read_open_mode : Option Value → Result Failure WorkspaceMode
unfolding mode_of_text
read_open_mode none = ok checkout
read_open_mode (some undefined) = ok checkout
read_open_mode (some (str text)) = mode_of_text text
read_open_mode (some _) =
    err (invalid_params "workspace.open params.mode must be checkout or worktree")

unfoldable pub read_open_base_ref : Option Value → Result Failure (Option String)
read_open_base_ref none = ok none
read_open_base_ref (some undefined) = ok none
read_open_base_ref (some (str base_ref)) =
    throw_if (str_eq base_ref "")
      (invalid_params "workspace.open params.baseRef must be a non-empty string")
    >> ok (some base_ref)
read_open_base_ref (some _) =
    err (invalid_params "workspace.open params.baseRef must be a non-empty string")

-- `mode !== 'worktree' && baseRef !== undefined`
unfoldable pub base_ref_misplaced : WorkspaceMode → Option String → Bool
base_ref_misplaced checkout (some base_ref) = true
base_ref_misplaced checkout none = false
base_ref_misplaced worktree base_ref = false

pub record WorkspaceOpenParams : Type 0 where
  pub path : String
  pub mode : WorkspaceMode
  pub base_ref : Option String

unfoldable pub read_workspace_open_params : Value → Result Failure WorkspaceOpenParams
unfolding member read_open_path read_open_mode read_open_base_ref base_ref_misplaced
read_workspace_open_params params = do
  path ← read_open_path (member "path" params)
  mode ← read_open_mode (member "mode" params)
  base_ref ← read_open_base_ref (member "baseRef" params)
  throw_if (base_ref_misplaced mode base_ref)
      (invalid_params "workspace.open params.baseRef requires worktree mode")
  ok (record { path = path; mode = mode; base_ref = base_ref })

unfoldable pub read_workspace_id_param : Value → Result Failure String
unfolding throw_on parse_entity_id member
read_workspace_id_param params = elim (member "workspaceId" params) [
  | some (str workspace_id) ↦ throw_on (parse_entity_id "workspace" workspace_id)
  | _ ↦ err (invalid_params "workspace.get requires params.workspaceId")
]

unfoldable pub read_operation_id_param : Value → Result Failure String
unfolding throw_on parse_entity_id member
read_operation_id_param params = elim (member "operationId" params) [
  | some (str operation_id) ↦ throw_on (parse_entity_id "operation" operation_id)
  | _ ↦ err (invalid_params "operation.get requires params.operationId")
]
