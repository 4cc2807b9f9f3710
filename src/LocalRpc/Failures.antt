-- ===== src/LocalRpc/Failures.antt =====
-- What a request over the socket that fails is reported as.
use benchhand.Prelude.{
  ℕ, String, Bool, true, false, ◌||◌, ◌&&◌, Option, none, some, List, [], ◌∷◌, ◌++◌, any, Result,
  ◌≡◌, refl, arith, Bool-cases, inl, inr, ap, sym, ◌∙◌, ap₂, subst, str_eq, str_eq_iff,
}
use benchhand.Prelude.Text.{Text}
use benchhand.Contracts.Value.{Value}
use benchhand.Contracts.Schema.{Schema, Thrown}
use benchhand.LocalRpc.{RpcCallError, call_error, Signal}
use benchhand.LocalRpc.Transport.{
  rejected, RequestState, TransportEvent, caller_aborts, deadline_fires, response_data,
  response_end, response_failed, request_failed, open_request, settle_with, request_outcome,
  receive, receive_chunk, abort_by_caller, fire_deadline, deliver, deliver_all, listens,
  delay_until, is_unavailable,
}
use benchhand.LocalRpc.Settlement.{is_last}

abbrev pub is_deadline : TransportEvent → Bool
is_deadline deadline_fires = true
is_deadline _ = false

abbrev pub is_abort : TransportEvent → Bool
is_abort caller_aborts = true
is_abort _ = false

abbrev pub is_armed : Option ℕ → Bool
is_armed none = false
is_armed (some delay) = true

-- The codes of system errors that say that no daemon is behind the socket.
pub data IsUnavailable : Option String → Type 0 where
  refused : IsUnavailable (some "ECONNREFUSED")
  no_entry : IsUnavailable (some "ENOENT")
  broken_pipe : IsUnavailable (some "EPIPE")
  reset : IsUnavailable (some "ECONNRESET")

-- What a failed request is reported as. A deadline that has fired comes first, then an abort by the
-- caller, then the error's code.
pub data IsReported
    : (timed cancelled : Bool) → Option String → String → RpcCallError → Type 0 where
  timeout :
      {cancelled : Bool} {code : Option String} {message : String}
      → IsReported true cancelled code message (call_error "TIMEOUT" "RPC deadline exceeded" true)
  cancellation :
      {code : Option String} {message : String}
      → IsReported false true code message (call_error "CANCELLED" "RPC call was cancelled" false)
  unavailable :
      {code : Option String} {message : String}
      → IsUnavailable code
      → IsReported false false code message
          (call_error "CORE_UNAVAILABLE" "Benchhand core daemon is unavailable" true)
  failure :
      {code : Option String} {message : String}
      → ¬ IsUnavailable code
      → IsReported false false code message (call_error "TRANSPORT_FAILURE" message true)

is_unavailable-IsUnavailable :
    (code : Option String) → is_unavailable code ≡ true → IsUnavailable code
unfolding is_unavailable
is_unavailable-IsUnavailable none h = absurd cc
is_unavailable-IsUnavailable (some code) h = elim (Bool-cases (str_eq code "ECONNREFUSED")) [
  | inl e ↦ subst (λ c. IsUnavailable (some c)) (sym ((str_eq_iff code _).0 e)) refused
  | inr a ↦ elim (Bool-cases (str_eq code "ENOENT")) [
    | inl e ↦ subst (λ c. IsUnavailable (some c)) (sym ((str_eq_iff code _).0 e)) no_entry
    | inr b ↦ elim (Bool-cases (str_eq code "EPIPE")) [
      | inl e ↦ subst (λ c. IsUnavailable (some c)) (sym ((str_eq_iff code _).0 e)) broken_pipe
      | inr c ↦
          let e : str_eq code "ECONNRESET" ≡ true = ground arith in
          subst (λ c. IsUnavailable (some c)) (sym ((str_eq_iff code _).0 e)) reset
    ]
  ]
]

IsUnavailable-is_unavailable :
    (code : Option String) → IsUnavailable code → is_unavailable code ≡ true
unfolding is_unavailable
IsUnavailable-is_unavailable code refused = refl
IsUnavailable-is_unavailable code no_entry = refl
IsUnavailable-is_unavailable code broken_pipe = refl
IsUnavailable-is_unavailable code reset = refl

request_outcome-IsReported :
    (timed cancelled : Bool) (code : Option String) (message : String)
    → (error : RpcCallError) × (request_outcome timed cancelled code message ≡ rejected error)
      × IsReported timed cancelled code message error
unfolding request_outcome
request_outcome-IsReported true cancelled code message = (_, refl, timeout)
request_outcome-IsReported false true code message = (_, refl, cancellation)
request_outcome-IsReported false false code message = elim (Bool-cases (is_unavailable code)) [
  | inl gone ↦ (
    call_error "CORE_UNAVAILABLE" "Benchhand core daemon is unavailable" true,
    rw gone refl,
    unavailable (is_unavailable-IsUnavailable code gone),
  )
  | inr other ↦ (
    call_error "TRANSPORT_FAILURE" message true,
    rw other refl,
    failure (λ gone. cc (sym (IsUnavailable-is_unavailable code gone) ∙ other)),
  )
]

and_false : (b : Bool) → (b && false) ≡ false
and_false b = ground arith

pub any-false :
    (p : TransportEvent → Bool) (event : TransportEvent) (events : List TransportEvent)
    → any p (event ∷ events) ≡ false
    → (p event ≡ false) × (any p events ≡ false)
any-false p event events h = ground arith

-- Whether a state will have timed out, or been cancelled, after more callbacks.
abbrev will_time_out : RequestState → List TransportEvent → Bool
will_time_out s events = s.timed_out || (is_armed s.timer && any is_deadline events)

abbrev will_be_cancelled : RequestState → List TransportEvent → Bool
will_be_cancelled s events = s.cancelled_by_caller || (s.listening && any is_abort events)

module _ (check : Schema → Value → Bool) (decode : Text → Result Thrown Value)
    (request_id : Value) where
  pub deliver-quiet :
      (event : TransportEvent) (later : List TransportEvent) (s : RequestState)
      → is_last event ≡ false
      → (will_time_out (deliver check decode request_id event s) later
          ≡ will_time_out s (event ∷ later))
        × (will_be_cancelled (deliver check decode request_id event s) later
            ≡ will_be_cancelled s (event ∷ later))
        × ((deliver check decode request_id event s).settled ≡ s.settled)
        × ((deliver check decode request_id event s).outcomes ≡ s.outcomes)
  unfolding deliver abort_by_caller fire_deadline receive_chunk receive
  deliver-quiet caller_aborts later s quiet =
      (ground arith, ground arith, ground arith, ground arith)
  deliver-quiet deadline_fires later s quiet =
      (ground arith, ground arith, ground arith, ground arith)
  deliver-quiet (response_data chunk) later s quiet =
      (ground arith, ground arith, ground arith, ground arith)
  deliver-quiet response_end later s quiet = absurd cc
  deliver-quiet (response_failed message) later s quiet = absurd cc
  deliver-quiet (request_failed code message) later s quiet = absurd cc

  quiet_then_failed :
      (quiet : List TransportEvent) (code : Option String) (message : String) (s : RequestState)
      → any is_last quiet ≡ false
      → s.settled ≡ false
      → s.outcomes ≡ []
      → (deliver_all check decode request_id
          (quiet ++ (request_failed code message ∷ []))
          s).outcomes
        ≡ request_outcome (will_time_out s quiet) (will_be_cancelled s quiet) code message ∷ []
  unfolding deliver_all deliver settle_with
  quiet_then_failed [] code message s calm fresh none_yet =
      ground (arith, and_false (is_armed s.timer), and_false s.listening)
  quiet_then_failed (event ∷ quiet) code message s calm fresh none_yet =
      let (here, rest) = any-false is_last event quiet calm in
      let (times, cancels, same, reports) = deliver-quiet event quiet s here in
      quiet_then_failed quiet code message _ rest (same ∙ fresh) (reports ∙ none_yet)
      ∙ ap₂ (λ t c. request_outcome t c code message ∷ []) times cancels

  module _ (deadline : Option ℕ) (now : ℕ) (caller : Signal) where
    armed_if_set : (o : Option ℕ) → is_armed (delay_until o now) ≡ is_armed o
    unfolding delay_until
    armed_if_set none = refl
    armed_if_set (some delay) = refl

    outcome_of_failure :
        (quiet : List TransportEvent) (code : Option String) (message : String)
        → any is_last quiet ≡ false
        → (deliver_all check decode request_id
            (quiet ++ (request_failed code message ∷ []))
            (open_request deadline now caller)).outcomes
          ≡ request_outcome
              (is_armed deadline && any is_deadline quiet)
              (listens caller && any is_abort quiet)
              code
              message
            ∷ []
    unfolding open_request delay_until listens
    outcome_of_failure quiet code message calm =
        quiet_then_failed quiet code message (open_request deadline now caller) calm refl refl
        ∙ ap
            (λ b.
              request_outcome (b && any is_deadline quiet) (listens caller && any is_abort quiet)
                code message
              ∷ [])
            (armed_if_set deadline)

    -- When the request fails before anything else has ended it, it is rejected once, with an error
    -- that depends on what went before: if a deadline was given and its timer has fired, that of
    -- `TIMEOUT`; without it, if the caller gave a signal and has aborted it, that of `CANCELLED`; and
    -- without both, that of `CORE_UNAVAILABLE` for the four codes that say that nobody is behind the
    -- socket, and that of `TRANSPORT_FAILURE` with the error's message for any other.
    pub failed_request :
        (quiet : List TransportEvent) (code : Option String) (message : String)
        → any is_last quiet ≡ false
        → (error : RpcCallError) × ((deliver_all check decode request_id
              (quiet ++ (request_failed code message ∷ []))
              (open_request deadline now caller)).outcomes
            ≡ rejected error ∷ [])
          × IsReported
              (is_armed deadline && any is_deadline quiet)
              (listens caller && any is_abort quiet)
              code
              message
              error
    failed_request quiet code message calm =
        let (error, rejects, reported) =
          request_outcome-IsReported (is_armed deadline && any is_deadline quiet)
            (listens caller && any is_abort quiet) code message in
        (error, outcome_of_failure quiet code message calm ∙ ap (λ o. o ∷ []) rejects, reported)
