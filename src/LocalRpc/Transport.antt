-- ===== src/LocalRpc/Transport.antt =====
-- `requestOverIpc` of packages/local-rpc/src/index.ts. The state is its local variables with the
-- timer, the listener on the caller's signal and the calls of `resolve` and `reject` made so far;
-- an event is one callback of the timer, the signal, the request or the response.
use benchhand.Prelude.{
  ℕ, String, Bool, true, false, ◌||◌, not, Option, none, some, List, [], ◌∷◌, ◌++◌, if◌then◌else◌,
  leb, length, str_eq, ◌+◌, ◌-◌, Result, ok, err,
}
use benchhand.Prelude.Text.{Text}
use benchhand.Contracts.Value.{Value, bool, str, property}
use benchhand.Contracts.Schema.{Schema, Thrown, error_object, thrown_value, parse_rpc_response}
use benchhand.LocalRpc.{
  max_response_bytes, RpcCallError, rpc_call_error, call_error, Signal, no_signal, signal,
}

pub data Outcome : Type 0 where
  resolved : Value → Outcome
  rejected : RpcCallError → Outcome

-- `chunks` holds the bytes kept, `outcomes` the calls of `resolve` and `reject`, newest first, and
-- `timer` the delay of a deadline timer that may still fire.
pub record RequestState : Type 0 where
  pub timed_out : Bool
  pub cancelled_by_caller : Bool
  pub settled : Bool
  pub timer : Option ℕ
  pub listening : Bool
  pub aborted : Bool
  pub chunks : Text
  pub bytes : ℕ
  pub destroyed : Bool
  pub outcomes : List Outcome

-- The events: `request_failed` has the error's `code`, if any, and its message.
pub data TransportEvent : Type 0 where
  caller_aborts deadline_fires : TransportEvent
  response_data : (chunk : Text) → TransportEvent
  response_end : TransportEvent
  response_failed : (message : String) → TransportEvent
  request_failed : (code : Option String) (message : String) → TransportEvent

unfoldable pub listens : Signal → Bool
listens no_signal = false
listens (signal _) = true

unfoldable pub delay_until : Option ℕ → ℕ → Option ℕ
delay_until none now = none
delay_until (some deadline) now = some (deadline - now)

unfoldable pub open_request : Option ℕ → ℕ → Signal → RequestState
unfolding listens delay_until
open_request deadline now caller = record {
  timed_out = false;
  cancelled_by_caller = false;
  settled = false;
  timer = delay_until deadline now;
  listening = listens caller;
  aborted = false;
  chunks = [];
  bytes = 0;
  destroyed = false;
  outcomes = [];
}

-- `settleResolve` and `settleReject`, with `cleanup`
unfoldable pub settle_with : Outcome → RequestState → RequestState
settle_with outcome s = if s.settled then s else record s {
  settled = true;
  timer = none;
  listening = false;
  outcomes = outcome ∷ s.outcomes;
}

abbrev pub transport_failure : String → Outcome
transport_failure message = rejected (call_error "TRANSPORT_FAILURE" message true)

unfoldable pub is_unavailable : Option String → Bool
is_unavailable none = false
is_unavailable (some code) =
    (str_eq code "ECONNREFUSED" || str_eq code "ENOENT")
    || (str_eq code "EPIPE" || str_eq code "ECONNRESET")

-- The listener of the request's `error`, as the flags stand.
unfoldable pub request_outcome : (timed_out cancelled : Bool) → Option String → String → Outcome
unfolding is_unavailable
request_outcome true cancelled code message =
    rejected (call_error "TIMEOUT" "RPC deadline exceeded" true)
request_outcome false true code message =
    rejected (call_error "CANCELLED" "RPC call was cancelled" false)
request_outcome false false code message =
    if is_unavailable code
    then rejected (call_error "CORE_UNAVAILABLE" "Benchhand core daemon is unavailable" true)
    else transport_failure message

-- `===` of two identifiers that have passed their schema, which are strings
unfoldable pub same_text : Value → Value → Bool
same_text (str a) (str b) = str_eq a b
same_text _ _ = false

unfoldable pub is_ok : Value → Bool
is_ok (bool b) = b
is_ok _ = false

-- `error instanceof Error ? error.message : 'Invalid RPC response'`
unfoldable pub thrown_message : Thrown → String
thrown_message (error_object name message) = message
thrown_message (thrown_value text) = "Invalid RPC response"

-- What the listener of `end` makes of a parsed response.
unfoldable pub answered : (request_id response : Value) → Outcome
unfolding property same_text is_ok rpc_call_error
answered request_id response =
    if same_text (property "requestId" response) request_id
    then if is_ok (property "ok" response)
      then resolved (property "result" response)
      else rejected (rpc_call_error (property "error" response))
    else transport_failure "RPC response requestId does not match the request"

unfoldable pub receive : (too_long : Bool) → Text → ℕ → RequestState → RequestState
receive true chunk bytes s = record s { bytes = bytes; destroyed = true }
receive false chunk bytes s = record s { bytes = bytes; chunks = s.chunks ++ chunk }

unfoldable pub receive_chunk : Text → RequestState → RequestState
unfolding receive
receive_chunk chunk s =
    let bytes = s.bytes + length chunk in receive (not (leb bytes max_response_bytes)) chunk bytes s

-- `onCallerAbort`: the listener is registered once.
unfoldable pub abort_by_caller : RequestState → RequestState
abort_by_caller s =
    if s.listening
    then record s { cancelled_by_caller = true; listening = false; aborted = true }
    else s

unfoldable pub fire_deadline : Option ℕ → RequestState → RequestState
fire_deadline none s = s
fire_deadline (some delay) s = record s { timed_out = true; timer = none; aborted = true }

unfoldable pub parsed_outcome : (request_id : Value) → Result Thrown Value → Outcome
unfolding thrown_message answered
parsed_outcome request_id (err e) = transport_failure (thrown_message e)
parsed_outcome request_id (ok response) = answered request_id response

-- `JSON.parse` of the body read as UTF-8 is `decode`.
module _ (check : Schema → Value → Bool) (decode : Text → Result Thrown Value) where
  unfoldable pub decoded_outcome : (request_id : Value) → Result Thrown Value → Outcome
  unfolding thrown_message parse_rpc_response parsed_outcome
  decoded_outcome request_id (err e) = transport_failure (thrown_message e)
  decoded_outcome request_id (ok decoded) =
      parsed_outcome request_id (parse_rpc_response check decoded)

  unfoldable pub deliver : (request_id : Value) → TransportEvent → RequestState → RequestState
  unfolding abort_by_caller fire_deadline receive_chunk settle_with decoded_outcome request_outcome
  deliver request_id caller_aborts s = abort_by_caller s
  deliver request_id deadline_fires s = fire_deadline s.timer s
  deliver request_id (response_data chunk) s = receive_chunk chunk s
  deliver request_id response_end s = settle_with (decoded_outcome request_id (decode s.chunks)) s
  deliver request_id (response_failed message) s = settle_with (transport_failure message) s
  deliver request_id (request_failed code message) s =
      settle_with (request_outcome s.timed_out s.cancelled_by_caller code message) s

  unfoldable pub deliver_all :
      (request_id : Value) → List TransportEvent → RequestState → RequestState
  unfolding deliver
  deliver_all request_id [] s = s
  deliver_all request_id (event ∷ events) s =
      deliver_all request_id events (deliver request_id event s)
