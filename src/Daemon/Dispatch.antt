-- ===== src/Daemon/Dispatch.antt =====
-- `dispatchRpc` of packages/daemon/src/index.ts with the mapping of the components' errors. The
-- components are an interface: each operation takes the state of the daemon's components and
-- returns or throws, with the state after it.
use Prim.Native.String
use benchhand.Prelude.{
  String, Bool, true, false, ◌||◌, Option, none, some, List, [], ◌∷◌, if◌then◌else◌, str_eq, Result,
  ok, err, ◌>>=◌, Exec,
}
use benchhand.Contracts.Value.{
  Number, Value, nat, bool, num, str, obj, Fields, field, end, property, set_field,
}
use benchhand.Contracts.Schema.{
  Schema, Thrown, rpc_schema_version, success_envelope, parse_result_envelope, result_of,
}
use benchhand.Daemon.{RpcError, Failure, dispatch_error, other_failure, rpc_failure, throw_on}
use benchhand.Daemon.Params.{
  FileReadParams, FileListParams, FileSearchParams, FileWriteParams, InstructionsResolveParams,
  SkillsReadParams, WorkspaceOpenParams, read_file_read_params, read_file_list_params,
  read_file_search_params, read_file_write_params, read_instructions_resolve_params,
  read_skills_list_params, read_skills_read_params, read_workspace_open_params,
  read_workspace_id_param, read_operation_id_param,
}
use benchhand.Daemon.Params.Edits.{FilePatchParams, read_file_patch_params}

-- `WorkspaceRegistryError`, `InstructionsError` and `FilesystemError`, as the dispatch reads them.
pub record CodedError : Type 0 where
  pub code : String
  pub message : String
  pub path : Option String
  pub details : Option Value

-- What an operation of a component throws: its own error class, or anything else.
pub data Caught : Type 0 where
  coded : CodedError → Caught
  uncoded : Failure → Caught

pub record Components (S : Type 0) : Type 0 where
  pub instance_id : String
  pub is_ready : S → Bool
  pub integrity_check : Exec S Thrown Value
  pub journal_get : String → Exec S Thrown (Option Value)
  pub workspaces_open : WorkspaceOpenParams → Exec S Caught Value
  pub workspaces_get : String → Exec S Caught (Option Value)
  pub filesystem_read : FileReadParams → Exec S Caught Value
  pub filesystem_list : FileListParams → Exec S Caught Value
  pub filesystem_search : FileSearchParams → Exec S Caught Value
  pub filesystem_write : FileWriteParams → Exec S Caught Value
  pub filesystem_patch : FilePatchParams → Exec S Caught Value
  pub instructions_resolve : InstructionsResolveParams → Exec S Caught Value
  pub instructions_list_skills : String → Exec S Caught Value
  pub instructions_read_skill : SkillsReadParams → Exec S Caught Value

pub data Method : Type 0 where
  system_health operation_get workspace_open workspace_get : Method
  file_read file_list file_search file_write file_patch : Method
  instructions_resolve skills_list skills_read : Method
  unknown_method : Method

-- The cases of the `switch`.
abbrev pub method_names : List (String × Method)
method_names =
    ("system.health", system_health)
    ∷ ("operation.get", operation_get)
    ∷ ("workspace.open", workspace_open)
    ∷ ("workspace.get", workspace_get)
    ∷ ("file.read", file_read)
    ∷ ("file.list", file_list)
    ∷ ("file.search", file_search)
    ∷ ("file.write", file_write)
    ∷ ("file.patch", file_patch)
    ∷ ("instructions.resolve", instructions_resolve)
    ∷ ("skills.list", skills_list)
    ∷ ("skills.read", skills_read)
    ∷ []

unfoldable pub case_of : String → List (String × Method) → Method
case_of name [] = unknown_method
case_of name ((label, method) ∷ rest) =
    let later = case_of name rest in if str_eq name label then method else later

-- `{ ...fields, ...overriding }`
unfoldable pub spread : Fields → Fields → Fields
unfolding set_field
spread fields end = fields
spread fields (field key v rest) = spread (set_field key v fields) rest

-- `mergeFilesystemErrorDetails`; details are JSON values
unfoldable pub merge_filesystem_error_details : CodedError → Option Value
unfolding spread
merge_filesystem_error_details error = elim error.path [
  | none ↦ error.details
  | some path ↦ elim error.details [
    | none ↦ some (obj true (field "path" (str path) end))
    | some (obj plain fields) ↦ some (obj true (spread (field "path" (str path) end) fields))
    | some evidence ↦ some (obj true (field "path" (str path) (field "evidence" evidence end)))
  ]
]

unfoldable pub as_filesystem_failure : Caught → Failure
unfolding merge_filesystem_error_details
as_filesystem_failure (coded error) = dispatch_error (record {
  code = error.code;
  message = error.message;
  retryable = str_eq error.code "PATH_INACCESSIBLE";
  details = merge_filesystem_error_details error;
})
as_filesystem_failure (uncoded e) = e

path_details : Option String → Option Value
path_details none = none
path_details (some path) = some (obj true (field "path" (str path) end))

unfoldable pub as_instructions_failure : Caught → Failure
unfolding path_details
as_instructions_failure (coded error) = dispatch_error (record {
  code = error.code;
  message = error.message;
  retryable =
      (str_eq error.code "SCOPE_INACCESSIBLE" || str_eq error.code "INSTRUCTION_INACCESSIBLE")
      || (str_eq error.code "INSTRUCTION_CHANGED_DURING_READ"
          || str_eq error.code "SKILL_INACCESSIBLE");
  details = path_details error.path;
})
as_instructions_failure (uncoded e) = e

-- The `catch` of `workspace.open`: a `WorkspaceRegistryError` always has its path.
unfoldable pub as_workspace_failure : Caught → Failure
unfolding path_details
as_workspace_failure (coded error) = dispatch_error (record {
  code = error.code;
  message = error.message;
  retryable = str_eq error.code "WORKSPACE_PATH_INACCESSIBLE";
  details = path_details error.path;
})
as_workspace_failure (uncoded e) = e

-- `workspace.get` has no `catch`: its errors are thrown on as they are.
uncaught : Caught → Failure
uncaught (coded error) = other_failure (Thrown.error_object "Error" error.message)
uncaught (uncoded e) = e

unfoldable pub not_found : (kind id : String) → RpcError
not_found kind id =
    rpc_failure "NOT_FOUND" (String.◌++◌ kind (String.◌++◌ " " (String.◌++◌ id " was not found")))
      false

module _ (check : Schema → Value → Bool) where
  -- `parseResultEnvelope({ ok: true, result }).result`
  enveloped : Value → Result Failure Value
  unfolding throw_on parse_result_envelope result_of
  enveloped result = do
    envelope ← throw_on (parse_result_envelope check (success_envelope result))
    ok (result_of envelope)

module _ {S : Type 0} where
  caught_as : {A : Type 0} → (Caught → Failure) → Result Caught A × S → Result Failure A × S
  caught_as convert (ok a, s) = (ok a, s)
  caught_as convert (err e, s) = (err (convert e), s)

  -- The parameters are read inside the operation: what their reader throws is no error of the
  -- component.
  called :
      {P A : Type 0}
      → (Caught → Failure)
      → Result Failure P
      → (P → Exec S Caught A)
      → S
      → Result Failure A × S
  unfolding caught_as
  called convert (err e) operation s = (err e, s)
  called convert (ok params) operation s = caught_as convert (operation params s)

  abbrev dispatch_filesystem :
      {P : Type 0} → Result Failure P → (P → Exec S Caught Value) → Exec S Failure Value
  dispatch_filesystem params operation s = called as_filesystem_failure params operation s

  abbrev dispatch_instructions :
      {P : Type 0} → Result Failure P → (P → Exec S Caught Value) → Exec S Failure Value
  dispatch_instructions params operation s = called as_instructions_failure params operation s

  module _ (check : Schema → Value → Bool) where
    found_or_not : (kind id : String) → Result Failure (Option Value) × S → Result Failure Value × S
    unfolding enveloped not_found
    found_or_not kind id (err e, s) = (err e, s)
    found_or_not kind id (ok none, s) = (err (dispatch_error (not_found kind id)), s)
    found_or_not kind id (ok (some v), s) = (enveloped check v, s)

    workspace_answer : Result Failure Value × S → Result Failure Value × S
    unfolding enveloped
    workspace_answer (err e, s) = (err e, s)
    workspace_answer (ok v, s) = (enveloped check v, s)

    thrown_on : {A : Type 0} → Result Thrown A × S → Result Failure A × S
    unfolding throw_on
    thrown_on (result, s) = (throw_on result, s)

    get_operation : Components S → Result Failure String → Exec S Failure Value
    unfolding found_or_not thrown_on
    get_operation components (err e) s = (err e, s)
    get_operation components (ok id) s =
        found_or_not "operation" id (thrown_on (components.journal_get id s))

    get_workspace : Components S → Result Failure String → Exec S Failure Value
    unfolding found_or_not caught_as uncaught
    get_workspace components (err e) s = (err e, s)
    get_workspace components (ok id) s =
        found_or_not "workspace" id (caught_as uncaught (components.workspaces_get id s))

    health : Components S → Bool → Result Thrown Value × S → Result Failure Value × S
    health components ready (err e, s) = (err (other_failure e), s)
    health components ready (ok integrity, s) = (
      ok (
          obj true (
            field "live" (bool true) (
              field "ready" (bool ready) (
                field "state" (str (if ready then "healthy" else "starting")) (
                  field "instanceId" (str components.instance_id) (
                    field "rpcSchemaVersion" (num (nat rpc_schema_version))
                      (field "storageIntegrity" integrity end))))))),
      s,
    )

    module _ (print : Number → String) (components : Components S) where
      unfoldable pub dispatch_method :
          Method → (name : String) → (params : Value) → Exec S Failure Value
      unfolding health get_operation get_workspace workspace_answer called as_filesystem_failure
          as_instructions_failure as_workspace_failure read_file_read_params read_file_list_params
          read_file_search_params read_file_write_params read_file_patch_params
          read_instructions_resolve_params read_skills_list_params read_skills_read_params
          read_workspace_open_params read_workspace_id_param read_operation_id_param
      dispatch_method system_health name params s =
          health components (components.is_ready s) (components.integrity_check s)
      dispatch_method operation_get name params s =
          get_operation components (read_operation_id_param params) s
      dispatch_method workspace_open name params s = workspace_answer (
          called as_workspace_failure (read_workspace_open_params params) components.workspaces_open
            s)
      dispatch_method workspace_get name params s =
          get_workspace components (read_workspace_id_param params) s
      dispatch_method file_read name params s =
          dispatch_filesystem (read_file_read_params params) components.filesystem_read s
      dispatch_method file_list name params s =
          dispatch_filesystem (read_file_list_params params) components.filesystem_list s
      dispatch_method file_search name params s =
          dispatch_filesystem (read_file_search_params params) components.filesystem_search s
      dispatch_method file_write name params s =
          dispatch_filesystem (read_file_write_params params) components.filesystem_write s
      dispatch_method file_patch name params s =
          dispatch_filesystem (read_file_patch_params print params) components.filesystem_patch s
      dispatch_method instructions_resolve name params s =
          dispatch_instructions (read_instructions_resolve_params params)
            components.instructions_resolve s
      dispatch_method skills_list name params s =
          dispatch_instructions (read_skills_list_params params) components.instructions_list_skills
            s
      dispatch_method skills_read name params s =
          dispatch_instructions (read_skills_read_params params) components.instructions_read_skill
            s
      dispatch_method unknown_method name params s = (
        err (
            dispatch_error (
              rpc_failure "METHOD_NOT_FOUND"
                (String.◌++◌ "RPC method " (String.◌++◌ name " is not supported")) false)),
        s,
      )

      text_or_empty : Value → String
      text_or_empty (str s) = s
      text_or_empty _ = ""

      -- `request.method` is a string: the request has passed its schema.
      unfoldable pub dispatch_rpc : (request : Value) → Exec S Failure Value
      unfolding dispatch_method case_of property text_or_empty
      dispatch_rpc request s =
          let name = text_or_empty (property "method" request) in
          dispatch_method (case_of name method_names) name (property "params" request) s
