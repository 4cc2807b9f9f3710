-- ===== src/Daemon.antt =====
-- The daemon, packages/daemon/src/index.ts: the errors that it answers with. What differs between
-- its requests is in the child modules: the parameters, the dispatch, the HTTP handler, the body.
pub mod Answers
pub mod Body
pub mod Dispatch
pub mod Http
pub mod Params
pub mod RoundTrip
pub mod Startup
mod Tests
use benchhand.Prelude.{String, Bool, true, false, Option, none, some, Result, ok, err}
use benchhand.Contracts.Value.{Value, Fields, str, bool, obj, field, end}
use benchhand.Contracts.Schema.{Thrown}

pub record RpcError : Type 0 where
  pub code : String
  pub message : String
  pub retryable : Bool
  pub details : Option Value

-- What a handler throws: a `DispatchError` with its `rpcError`, or any other error.
pub data Failure : Type 0 where
  dispatch_error : RpcError → Failure
  other_failure : Thrown → Failure

abbrev pub rpc_failure : (code message : String) (retryable : Bool) → RpcError
rpc_failure code message retryable = record {
  code = code;
  message = message;
  retryable = retryable;
  details = none;
}

abbrev pub invalid_params : (message : String) → Failure
invalid_params message = dispatch_error (rpc_failure "INVALID_REQUEST" message false)

-- An error of another component, thrown on.
unfoldable pub throw_on : {A : Type 0} → Result Thrown A → Result Failure A
throw_on (err e) = err (other_failure e)
throw_on (ok a) = ok a
