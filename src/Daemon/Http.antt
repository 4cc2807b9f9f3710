-- ===== src/Daemon/Http.antt =====
-- `handleHttpRequest` of packages/daemon/src/index.ts, with the writing of the response. The body is
-- what `readRequestBody` answers; `JSON.parse` of it, TypeBox's check and the printing of a number
-- are parameters.
use Prim.Native.String
use benchhand.Prelude.{
  ℕ, String, Bool, true, false, ◌||◌, ◌&&◌, Option, none, some, List, ◌∷◌, if◌then◌else◌, str_eq,
  ◌==◌, leb, Result, ok, err, ◌>>=◌,
}
use benchhand.Prelude.Text.{Text}
use benchhand.Contracts.Value.{
  Number, Value, nat, finite, bool, num, str, arr, obj, nil, cons, Fields, field, end, property,
}
use benchhand.Contracts.Schema.{
  Schema, Thrown, error_object, thrown_value, rpc_schema_version, parse_rpc_request,
}
use benchhand.Daemon.{RpcError, Failure, dispatch_error, other_failure, rpc_failure}
use benchhand.Daemon.Dispatch.{Components, dispatch_rpc}

-- The response: `envelopes` holds the envelopes sent, newest first.
pub record HttpResponse : Type 0 where
  pub writable_ended : Bool
  pub destroyed : Bool
  pub envelopes : List Value

unfoldable pub write_json : Value → HttpResponse → HttpResponse
write_json value response =
    if response.writable_ended || response.destroyed
    then response
    else record response { writable_ended = true; envelopes = value ∷ response.envelopes }

unfoldable pub with_details : Option Value → Fields
with_details none = end
with_details (some v) = field "details" v end

unfoldable pub error_value : RpcError → Value
unfolding with_details
error_value error = obj true (
    field "code" (str error.code) (
      field "message" (str error.message)
        (field "retryable" (bool error.retryable) (with_details error.details))))

unfoldable pub success_response : (request_id : String) → Value → Value
success_response request_id result = obj true (
    field "schemaVersion" (num (nat rpc_schema_version))
      (field "requestId" (str request_id) (field "ok" (bool true) (field "result" result end))))

unfoldable pub failure_response : (request_id : String) → RpcError → Value
unfolding error_value
failure_response request_id error = obj true (
    field "schemaVersion" (num (nat rpc_schema_version)) (
      field "requestId" (str request_id)
        (field "ok" (bool false) (field "error" (error_value error) end))))

unfoldable pub write_rpc_success : (request_id : String) → Value → HttpResponse → HttpResponse
unfolding write_json success_response
write_rpc_success request_id result response =
    write_json (success_response request_id result) response

unfoldable pub write_rpc_error : (request_id : String) → RpcError → HttpResponse → HttpResponse
unfolding write_json failure_response
write_rpc_error request_id error response = write_json (failure_response request_id error) response

-- The `requestId` of a decoded body, where it is a non-empty string.
unfoldable pub request_id_of : Value → String
unfolding property
request_id_of decoded = elim (property "requestId" decoded) [
  | str id ↦ if str_eq id "" then "unparsed" else id
  | _ ↦ "unparsed"
]

-- `is_integer` is `Number.isInteger` on the numbers that are no natural number.
module _ (is_integer : ℕ → Bool) where
  integer_of : Number → Option Number
  integer_of (nat n) = some (nat n)
  integer_of (finite k) = if is_integer k then some (finite k) else none
  integer_of _ = none

  unfoldable pub version_of : Value → Option Number
  unfolding integer_of
  version_of (num n) = integer_of n
  version_of _ = none

  unfoldable pub read_requested_schema_version : Value → Option Number
  unfolding property version_of
  read_requested_schema_version value = version_of (property "schemaVersion" value)

is_supported : Number → Bool
is_supported (nat n) = n == rpc_schema_version
is_supported _ = false

unfoldable pub unsupported : Option Number → Option Number
unfolding is_supported
unsupported none = none
unsupported (some version) = if is_supported version then none else some version

-- `error instanceof Error ? error.message : 'Invalid RPC request'`
unfoldable pub failure_error : Failure → RpcError
failure_error (dispatch_error error) = error
failure_error (other_failure (error_object name message)) =
    rpc_failure "INVALID_REQUEST" message false
failure_error (other_failure (thrown_value text)) =
    rpc_failure "INVALID_REQUEST" "Invalid RPC request" false

unfoldable pub deadline_expired : Value → (now : ℕ) → Bool
unfolding property
deadline_expired request now = elim (property "deadlineUnixMs" request) [
  | num (nat deadline) ↦ leb deadline now
  | _ ↦ false
]

unfoldable pub text_of : Value → String
text_of (str s) = s
text_of _ = "unparsed"

-- The surroundings of a handler: the checks of other packages, the clock and the components.
pub record Surroundings (S : Type 0) : Type 0 where
  pub check : Schema → Value → Bool
  pub parse_json : Text → Result Thrown Value
  pub is_integer : ℕ → Bool
  pub print : Number → String
  pub now : ℕ
  pub components : Components S

module _ {S : Type 0} (around : Surroundings S) where
  unfoldable pub unsupported_error : Number → RpcError
  unsupported_error version = record {
    code = "UNSUPPORTED_SCHEMA_VERSION";
    message =
        String.◌++◌ "RPC schema version " (String.◌++◌ (around.print version) " is not supported");
    retryable = false;
    details = some (
        obj true (
          field "requested" (num version)
            (field "supported" (arr (cons (num (nat rpc_schema_version)) nil)) end)));
  }

  unfoldable pub answer_result :
      (request_id : String) → Result Failure Value × S → HttpResponse → HttpResponse × S
  unfolding write_rpc_success write_rpc_error failure_error
  answer_result request_id (ok result, s) response =
      (write_rpc_success request_id result response, s)
  answer_result request_id (err e, s) response =
      (write_rpc_error request_id (failure_error e) response, s)

  unfoldable pub answer_request :
      (request : Value) → (expired : Bool) → HttpResponse → S → HttpResponse × S
  unfolding answer_result write_rpc_error dispatch_rpc text_of property
  answer_request request true response s = (
    write_rpc_error (text_of (property "requestId" request))
        (rpc_failure "TIMEOUT" "RPC deadline exceeded before dispatch" true) response,
    s,
  )
  answer_request request false response s =
      answer_result (text_of (property "requestId" request))
        (dispatch_rpc around.check around.print around.components request s) response

  unfoldable pub answer_parsed :
      (request_id : String) → Result Thrown Value → HttpResponse → S → HttpResponse × S
  unfolding answer_request write_rpc_error failure_error deadline_expired
  answer_parsed request_id (err e) response s =
      (write_rpc_error request_id (failure_error (other_failure e)) response, s)
  answer_parsed request_id (ok request) response s =
      answer_request request (deadline_expired request around.now) response s

  unfoldable pub answer_version : Value → Option Number → HttpResponse → S → HttpResponse × S
  unfolding answer_parsed write_rpc_error request_id_of unsupported_error parse_rpc_request
  answer_version decoded (some version) response s =
      (write_rpc_error (request_id_of decoded) (unsupported_error version) response, s)
  answer_version decoded none response s =
      answer_parsed (request_id_of decoded) (parse_rpc_request around.check decoded) response s

  unfoldable pub answer_decoded : Value → HttpResponse → S → HttpResponse × S
  unfolding answer_version unsupported read_requested_schema_version
  answer_decoded decoded response s =
      answer_version decoded (unsupported (read_requested_schema_version around.is_integer decoded))
        response s

  unfoldable pub answer_json : Result Thrown Value → HttpResponse → S → HttpResponse × S
  unfolding answer_decoded write_rpc_error failure_error
  answer_json (err e) response s =
      (write_rpc_error "unparsed" (failure_error (other_failure e)) response, s)
  answer_json (ok decoded) response s = answer_decoded decoded response s

  unfoldable pub answer_route :
      (routed : Bool) → Result Thrown Text → HttpResponse → S → HttpResponse × S
  unfolding answer_json write_rpc_error
  answer_route true body response s = answer_json (body >>= around.parse_json) response s
  answer_route false body response s = (
    write_rpc_error "unparsed" (rpc_failure "METHOD_NOT_FOUND" "Only POST /rpc is supported" false)
        response,
    s,
  )

  -- `body` is what reading the body answers: it is read only for `POST /rpc`.
  unfoldable pub handle_http_request :
      (method url : String) → (body : Result Thrown Text) → HttpResponse → S → HttpResponse × S
  unfolding answer_route
  handle_http_request method url body response s =
      answer_route (str_eq method "POST" && str_eq url "/rpc") body response s
