-- ===== src/LocalRpc.antt =====
-- The client of the daemon, packages/local-rpc/src/index.ts: the guards of `call`, and
-- `requestOverIpc` as a machine whose events are the callbacks that it registers. TypeBox's check
-- and the decoding of the response body are parameters.

pub mod Failures
pub mod Resolved
pub mod Settlement
pub mod Transport
mod Tests
use benchhand.Prelude.{
  ℕ, String, Bool, true, false, ◌||◌, not, Option, none, some, List, [], ◌∷◌, ◌++◌, if◌then◌else◌,
  leb, ◌==◌, length, str_eq, ◌*◌, ◌+◌, ◌-◌, Result, ok, err, ◌>>=◌, ◌>>◌, throw_if,
}
use benchhand.Prelude.Text.{Text}
use benchhand.Contracts.Value.{
  Number, Value, nat, bool, num, str, obj, undefined, Fields, field, end, property, set_field,
}
use benchhand.Contracts.Schema.{
  Schema, Thrown, error_object, thrown_value, rpc_schema_version, parse_rpc_request,
  parse_rpc_response,
}

abbrev pub max_response_bytes : ℕ
max_response_bytes = 1024 * 1024

pub record RpcCallError : Type 0 where
  pub code : Value
  pub message : Value
  pub retryable : Value
  pub details : Value

-- `new RpcCallError(error)` for the error of a response
unfoldable pub rpc_call_error : Value → RpcCallError
unfolding property
rpc_call_error error = record {
  code = property "code" error;
  message = property "message" error;
  retryable = property "retryable" error;
  details = property "details" error;
}

-- `new RpcCallError({ code, message, retryable })`
abbrev pub call_error : String → String → Bool → RpcCallError
call_error code message retryable = record {
  code = str code;
  message = str message;
  retryable = bool retryable;
  details = undefined;
}

-- What a call rejects with: a `RpcCallError`, or the error of a failed argument check.
pub data Rejection : Type 0 where
  call_failure : RpcCallError → Rejection
  invalid_call : Thrown → Rejection

-- A call as the caller makes it, without the schema version: the options' signal is undefined, or
-- aborted or not.
pub data Signal : Type 0 where
  no_signal : Signal
  signal : (aborted : Bool) → Signal

unfoldable pub signal_aborted : Signal → Bool
signal_aborted no_signal = false
signal_aborted (signal aborted) = aborted

-- `deadlineUnixMs` of a request that has passed its schema: undefined, or a non-negative integer.
unfoldable pub deadline_of : Value → Option ℕ
unfolding property
deadline_of request = elim (property "deadlineUnixMs" request) [ num (nat n) ↦ some n | _ ↦ none ]

unfoldable pub deadline_passed : Option ℕ → ℕ → Bool
deadline_passed none now = false
deadline_passed (some deadline) now = leb deadline now

-- `createLocalRpcClient`: the check of its options.
unfoldable pub create_local_rpc_client : (socket_path : Text) → Result Thrown (Unit {0})
create_local_rpc_client socket_path =
    throw_if (length socket_path == 0) (error_object "TypeError" "socketPath must not be empty")

unfoldable pub lift_thrown : {A : Type 0} → Result Thrown A → Result Rejection A
lift_thrown (err e) = err (invalid_call e)
lift_thrown (ok a) = ok a

module _ (check : Schema → Value → Bool) where
  -- `call` up to the transport: the request that it hands to `requestOverIpc`.
  unfoldable pub call : Fields → Signal → (now : ℕ) → Result Rejection Value
  unfolding lift_thrown parse_rpc_request set_field signal_aborted deadline_of deadline_passed
  call request caller now = do
    wire_request ← lift_thrown (
        parse_rpc_request check
          (obj true (set_field "schemaVersion" (num (nat rpc_schema_version)) request)))
    throw_if (deadline_passed (deadline_of wire_request) now)
        (call_failure (call_error "TIMEOUT" "RPC deadline exceeded before transport" true))
    throw_if (signal_aborted caller)
        (call_failure (call_error "CANCELLED" "RPC call was cancelled before transport" false))
    ok wire_request
