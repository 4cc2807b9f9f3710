-- ===== src/Contracts/Schema.antt =====
-- The schemas of packages/contracts/src/contracts.ts and its parse functions. What TypeBox's
-- `Value.Check` answers is a parameter.
use Prim.Native.String
use benchhand.Prelude.{
  ℕ, String, Bool, true, false, Option, none, some, ◌&&◌, if◌then◌else◌, str_eq, Result, ok, err,
}
use benchhand.Contracts.Value.{Value, undefined, bool, obj, end, field, is_json_value, get_field}

pub data OperationState : Type 0 where
  accepted running committed failed unknown_needs_reconcile rolled_back : OperationState

pub data WorkspaceMode : Type 0 where
  checkout worktree : WorkspaceMode

pub data WorkspaceStatus : Type 0 where
  available missing inaccessible invalid : WorkspaceStatus

mutual
  pub data Schema : Type 0 where
    literal_text : String → Schema
    literal_bool : Bool → Schema
    literal_number : ℕ → Schema
    string_in : (min_length : ℕ) (max_length : Option ℕ) → Schema
    integer_from : (minimum : ℕ) → Schema
    boolean null_only unknown : Schema
    array_unique : Schema → Schema
    union : Schemas → Schema
    object : Properties → Schema

  pub data Schemas : Type 0 where
    none_of : Schemas
    or_of : Schema → Schemas → Schemas

  -- No property but those listed is allowed.
  pub data Properties : Type 0 where
    closed : Properties
    required optional : String → Schema → Properties → Properties

abbrev nullable_text : Schema
nullable_text = union (or_of (string_in 1 none) (or_of null_only none_of))

abbrev pub health_state_schema : Schema
health_state_schema = union (
    or_of (literal_text "starting") (
      or_of (literal_text "healthy") (
        or_of (literal_text "degraded") (
          or_of (literal_text "unhealthy")
            (or_of (literal_text "unknown") (or_of (literal_text "stopping") none_of))))))

abbrev pub operation_state_schema : Schema
operation_state_schema = union (
    or_of (literal_text "accepted") (
      or_of (literal_text "running") (
        or_of (literal_text "committed") (
          or_of (literal_text "failed") (
            or_of (literal_text "unknown-needs-reconcile")
              (or_of (literal_text "rolled_back") none_of))))))

abbrev pub workspace_mode_schema : Schema
workspace_mode_schema =
    union (or_of (literal_text "checkout") (or_of (literal_text "worktree") none_of))

abbrev pub workspace_status_schema : Schema
workspace_status_schema = union (
    or_of (literal_text "available") (
      or_of (literal_text "missing")
        (or_of (literal_text "inaccessible") (or_of (literal_text "invalid") none_of))))

abbrev pub workspace_record_schema : Schema
workspace_record_schema = object (
    required "workspaceId" (string_in 1 (some 256)) (
      required "canonicalPath" (string_in 1 none) (
        required "requestedPath" (string_in 1 none) (
          required "mode" workspace_mode_schema (
            required "repoRoot" nullable_text (
              required "worktreePath" nullable_text (
                required "baseRef" nullable_text (
                  required "branch" nullable_text (
                    required "createdAt" (string_in 1 none) (
                      required "lastUsedAt" (string_in 1 none) (
                        required "ownerInstance" nullable_text (
                          required "status" workspace_status_schema
                            (required "metadataVersion" (integer_from 1) closed)))))))))))))

abbrev pub rpc_schema_version : ℕ
rpc_schema_version = 1

abbrev pub rpc_error_schema : Schema
rpc_error_schema = object (
    required "code" (string_in 1 (some 128)) (
      required "message" (string_in 1 none)
        (required "retryable" boolean (optional "details" unknown closed))))

abbrev pub rpc_request_schema : Schema
rpc_request_schema = object (
    required "schemaVersion" (literal_number rpc_schema_version) (
      required "requestId" (string_in 1 (some 128)) (
        required "method" (string_in 1 (some 128)) (
          required "params" unknown (
            optional "operationId" (string_in 1 (some 256))
              (optional "deadlineUnixMs" (integer_from 0) closed))))))

abbrev pub rpc_success_response_schema : Schema
rpc_success_response_schema = object (
    required "schemaVersion" (literal_number rpc_schema_version) (
      required "requestId" (string_in 1 (some 128))
        (required "ok" (literal_bool true) (required "result" unknown closed))))

abbrev pub rpc_failure_response_schema : Schema
rpc_failure_response_schema = object (
    required "schemaVersion" (literal_number rpc_schema_version) (
      required "requestId" (string_in 1 (some 128))
        (required "ok" (literal_bool false) (required "error" rpc_error_schema closed))))

abbrev pub rpc_response_schema : Schema
rpc_response_schema =
    union (or_of rpc_success_response_schema (or_of rpc_failure_response_schema none_of))

abbrev pub entity_version_schema : Schema
entity_version_schema = integer_from 0

abbrev pub capability_descriptor_schema : Schema
capability_descriptor_schema = object (
    required "capability" (string_in 1 (some 128)) (
      required "provider" (string_in 1 (some 256)) (
        required "providerVersion" (string_in 1 (some 128)) (
          required "health" health_state_schema
            (required "features" (array_unique (string_in 1 (some 128))) closed)))))

abbrev pub mutation_metadata_schema : Schema
mutation_metadata_schema = object (
    required "readOnly" boolean (
      required "idempotent" boolean
        (required "dangerous" boolean (required "requiresOperationId" boolean closed))))

abbrev pub error_envelope_schema : Schema
error_envelope_schema = object (
    required "ok" (literal_bool false) (
      required "error" rpc_error_schema (
        optional "requestId" (string_in 1 (some 256))
          (optional "operationId" (string_in 1 (some 256)) closed))))

abbrev pub result_envelope_schema : Schema
result_envelope_schema = object (
    required "ok" (literal_bool true)
      (required "result" unknown (optional "requestId" (string_in 1 (some 256)) closed)))

-- A thrown `Error` with its name and message, or any other thrown value with its `String(…)`.
pub data Thrown : Type 0 where
  error_object : (name message : String) → Thrown
  thrown_value : String → Thrown

-- ids.ts: an id is a non-empty string.
unfoldable pub parse_entity_id : (kind value : String) → Result Thrown String
parse_entity_id kind value =
    if str_eq value ""
    then err (error_object "TypeError" (String.◌++◌ kind " id must not be empty"))
    else ok value

-- `{ ok: true, result }`
abbrev pub success_envelope : Value → Value
success_envelope v = obj true (field "ok" (bool true) (field "result" v end))

-- `envelope.result`
unfoldable pub result_of : Value → Value
unfolding get_field
result_of (obj plain fields) = elim (get_field "result" fields) [ none ↦ undefined | some v ↦ v ]
result_of _ = undefined

module _ (check : Schema → Value → Bool) where
  unfoldable pub parse_schema : Schema → Value → String → Result Thrown Value
  parse_schema schema value label =
      if is_json_value value && check schema value
      then ok value
      else err (error_object "TypeError" (String.◌++◌ "invalid " label))

  unfoldable pub parse_result_envelope : Value → Result Thrown Value
  unfolding parse_schema
  parse_result_envelope value = parse_schema result_envelope_schema value "result envelope"

  unfoldable pub parse_error_envelope : Value → Result Thrown Value
  unfolding parse_schema
  parse_error_envelope value = parse_schema error_envelope_schema value "error envelope"

  unfoldable pub parse_rpc_request : Value → Result Thrown Value
  unfolding parse_schema
  parse_rpc_request value = parse_schema rpc_request_schema value "rpc request"

  unfoldable pub parse_rpc_response : Value → Result Thrown Value
  unfolding parse_schema
  parse_rpc_response value = parse_schema rpc_response_schema value "rpc response"

  unfoldable pub parse_workspace_record : Value → Result Thrown Value
  unfolding parse_schema
  parse_workspace_record value = parse_schema workspace_record_schema value "workspace record"

  unfoldable pub parse_health_state : Value → Result Thrown Value
  unfolding parse_schema
  parse_health_state value = parse_schema health_state_schema value "health state"

  unfoldable pub parse_operation_state : Value → Result Thrown Value
  unfolding parse_schema
  parse_operation_state value = parse_schema operation_state_schema value "operation state"

  unfoldable pub parse_entity_version : Value → Result Thrown Value
  unfolding parse_schema
  parse_entity_version value = parse_schema entity_version_schema value "entity version"

  unfoldable pub parse_capability_descriptor : Value → Result Thrown Value
  unfolding parse_schema
  parse_capability_descriptor value =
      parse_schema capability_descriptor_schema value "capability descriptor"

  unfoldable pub parse_mutation_metadata : Value → Result Thrown Value
  unfolding parse_schema
  parse_mutation_metadata value = parse_schema mutation_metadata_schema value "mutation metadata"
