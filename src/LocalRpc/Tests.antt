-- ===== src/LocalRpc/Tests.antt =====
-- Requests over the socket with a peer that answers one fixed response.
use benchhand.Prelude.{
  Bool, true, false, none, some, List, [], ◌∷◌, ◌++◌, ◌≡◌, refl, Result, ok, ◌≤◌, length,
}
use benchhand.Prelude.Text.{Text}
use benchhand.Contracts.Value.{Value, Fields, null, str, bool, obj, num, nat, field, end, property}
use benchhand.Contracts.Schema.{Schema, Thrown}
use benchhand.LocalRpc.{
  call_error, signal, call, RpcCallError, Rejection, call_failure, max_response_bytes,
}
use benchhand.LocalRpc.Transport.{
  Outcome, resolved, rejected, TransportEvent, caller_aborts, deadline_fires, response_data,
  response_end, response_failed, request_failed, deliver_all, open_request, transport_failure,
}
use benchhand.LocalRpc.Settlement.{settles_once, ends_settled, after_events}
use benchhand.LocalRpc.Failures.{IsReported, failed_request}
use benchhand.LocalRpc.Resolved.{chunks_of, fitting, EndsWith, resolved_request}

abbrev any_check : Schema → Value → Bool
any_check schema v = true

abbrev pong : Value
pong = obj true (
    field "schemaVersion" (num (nat 1))
      (field "requestId" (str "r1") (field "ok" (bool true) (field "result" (str "pong") end))))

abbrev decode_pong : Text → Result Thrown Value
decode_pong body = ok pong

abbrev answer_events : List TransportEvent
answer_events = response_data (123 ∷ 125 ∷ []) ∷ response_end ∷ []

call_late_test :
    call any_check
      (field "requestId" (str "r1") (field "deadlineUnixMs" (num (nat 5)) end))
      (signal true)
      5
    ≡ Result.err (call_failure (call_error "TIMEOUT" "RPC deadline exceeded before transport" true))
unfolding call benchhand.Contracts.Value.is_json_value
call_late_test = refl

answered_test :
    (after_events any_check decode_pong (str "r1") (some 9) 5 (signal false) answer_events).outcomes
    ≡ resolved (str "pong") ∷ []
unfolding deliver_all open_request benchhand.Contracts.Value.is_json_value
answered_test = refl

settles_once_example :
    ((after_events any_check decode_pong
        (str "r1")
        (some 9)
        5
        (signal false)
        (answer_events ++ (deadline_fires ∷ response_failed "aborted" ∷ []))).outcomes
      ≡ resolved (str "pong") ∷ [])
    × ((after_events any_check decode_pong
          (str "r1")
          (some 9)
          5
          (signal false)
          (answer_events ++ (deadline_fires ∷ response_failed "aborted" ∷ []))).timer
        ≡ none)
    × ((after_events any_check decode_pong
          (str "r1")
          (some 9)
          5
          (signal false)
          (answer_events ++ (deadline_fires ∷ response_failed "aborted" ∷ []))).listening
        ≡ false)
settles_once_example =
    settles_once any_check decode_pong (str "r1") (some 9) 5 (signal false) answer_events
      (deadline_fires ∷ response_failed "aborted" ∷ []) (resolved (str "pong")) [] answered_test

ends_settled_example :
    ((o : Outcome) × ((after_events any_check decode_pong
          (str "r1")
          none
          5
          (signal false)
          (caller_aborts ∷ answer_events)).outcomes
        ≡ o ∷ []))
    × (length
          (after_events any_check decode_pong
            (str "r1")
            none
            5
            (signal false)
            (caller_aborts ∷ answer_events)).chunks
        ≤ max_response_bytes)
ends_settled_example =
    ends_settled any_check decode_pong (str "r1") none 5 (signal false)
      (caller_aborts ∷ answer_events) refl

failed_request_example :
    (error : RpcCallError) × ((deliver_all any_check decode_pong
        (str "r1")
        ((caller_aborts ∷ deadline_fires ∷ []) ++ (request_failed (some "ABORT_ERR") "gone" ∷ []))
        (open_request (some 9) 5 (signal false))).outcomes
      ≡ rejected error ∷ [])
    × IsReported true true (some "ABORT_ERR") "gone" error
unfolding benchhand.LocalRpc.Transport.listens
failed_request_example =
    failed_request any_check decode_pong (str "r1") (some 9) 5 (signal false)
      (caller_aborts ∷ deadline_fires ∷ []) (some "ABORT_ERR") "gone" refl

resolved_request_example :
    EndsWith any_check decode_pong
      (str "r1")
      (λ before. fitting 0 (chunks_of before))
      answer_events
      (str "pong")
resolved_request_example =
    resolved_request any_check decode_pong (str "r1") (some 9) 5 (signal false) answer_events
      (str "pong") answered_test
