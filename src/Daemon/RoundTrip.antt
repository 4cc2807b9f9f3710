-- ===== src/Daemon/RoundTrip.antt =====
-- A call of the client, packages/local-rpc/src/index.ts, answered by the handler of the daemon,
-- packages/daemon/src/index.ts. The two meet in what travels: each side decodes the JSON text that
-- the other has written.
use benchhand.Prelude.{
  ℕ, String, Bool, true, false, Option, none, some, [], ◌∷◌, ◌≤◌, leb, length, str_eq_refl, Result,
  ok, err, ◌≡◌, refl, arith, ap, ◌∙◌, subst, ok-injective, ◌+◌, >>=-eq-ok, guard-ok,
}
use benchhand.Prelude.Text.{Text}
use benchhand.Contracts.Value.{
  Value, Fields, field, end, obj, num, nat, str, bool, property, set_field, get_field, or_undefined,
}
use benchhand.Contracts.Schema.{
  Schema, Thrown, rpc_schema_version, parse_rpc_request, parse_rpc_response, parse_schema,
}
use benchhand.LocalRpc.{
  max_response_bytes, RpcCallError, rpc_call_error, Signal, call, lift_thrown, call_error,
  call_failure, signal_aborted, deadline_of, deadline_passed,
}
use benchhand.LocalRpc.Transport.{
  Outcome, resolved, rejected, response_data, response_end, open_request, deliver_all, deliver,
  receive_chunk, receive, settle_with, decoded_outcome, parsed_outcome, answered, same_text, is_ok,
}
use benchhand.Daemon.{RpcError, Failure}
use benchhand.Daemon.Dispatch.{dispatch_rpc}
use benchhand.Daemon.Http.{
  error_value, with_details, success_response, failure_response, failure_error, Surroundings,
  handle_http_request, answer_route, answer_json, answer_decoded, answer_version, answer_parsed,
  answer_request, unsupported, version_of, read_requested_schema_version, deadline_expired, text_of,
  request_id_of,
}
use benchhand.Daemon.Answers.{envelope_of, fresh_response, sent, answer_result-sent}

get_field-set_field :
    (key : String) (v : Value) (fields : Fields) → get_field key (set_field key v fields) ≡ some v
unfolding get_field set_field
get_field-set_field key v end = rw (str_eq_refl key)
get_field-set_field key v (field k w rest) = ground (arith, get_field-set_field key v rest)

-- The error of the daemon, as the client rejects with it.
abbrev pub reported : RpcError → RpcCallError
reported error = record {
  code = str error.code;
  message = str error.message;
  retryable = bool error.retryable;
  details = or_undefined error.details;
}

rpc_call_error-reported :
    (error : RpcError) (details : Option Value)
    → rpc_call_error (error_value (record error { details = details }))
      ≡ reported (record error { details = details })
unfolding rpc_call_error error_value property with_details get_field
rpc_call_error-reported error none = refl
rpc_call_error-reported error (some v) = refl

-- What the client makes of an outcome of the dispatch.
abbrev pub outcome_of : Result Failure Value → Outcome
outcome_of (ok v) = resolved v
outcome_of (err e) = rejected (reported (failure_error e))

answered-envelope :
    (id : String) (result : Result Failure Value)
    → answered (str id) (envelope_of id result) ≡ outcome_of result
unfolding answered envelope_of success_response failure_response property get_field same_text is_ok
answered-envelope id (ok v) = rw (str_eq_refl id)
answered-envelope id (err e) =
    let e' = failure_error e in
    rw (str_eq_refl id) (ap rejected (rpc_call_error-reported e' e'.details))

property-set_field :
    (key : String) (v : Value) (fields : Fields)
    → property key (obj true (set_field key v fields)) ≡ v
unfolding property
property-set_field key v fields = ap or_undefined (get_field-set_field key v fields)

version-supported :
    (is_integer : ℕ → Bool) (request : Fields)
    → unsupported (
        read_requested_schema_version is_integer
          (obj true (set_field "schemaVersion" (num (nat rpc_schema_version)) request)))
      ≡ none
unfolding read_requested_schema_version unsupported
version-supported is_integer request =
    ap (λ v. unsupported (version_of is_integer v))
      (property-set_field "schemaVersion" (num (nat rpc_schema_version)) request)

lift_thrown-ok : {A : Type 0} (r : Result Thrown A) {a : A} → lift_thrown r ≡ ok a → r ≡ ok a
unfolding lift_thrown
lift_thrown-ok (err e) h = absurd cc
lift_thrown-ok (ok a) h = cc

parse_rpc_request-same :
    (check : Schema → Value → Bool) (v w : Value) → parse_rpc_request check v ≡ ok w → v ≡ w
unfolding parse_rpc_request parse_schema
parse_rpc_request-same check v w h = ground arith

call-wire :
    (check : Schema → Value → Bool) (request : Fields) (caller : Signal) (now : ℕ) (wire : Value)
    → call check request caller now ≡ ok wire
    → (obj true (set_field "schemaVersion" (num (nat rpc_schema_version)) request) ≡ wire)
      × (parse_rpc_request check wire ≡ ok wire)
unfolding call lift_thrown
call-wire check request caller now wire h =
    let (wire', parses, rest) = >>=-eq-ok _ _ h in
    let late = call_failure (call_error "TIMEOUT" "RPC deadline exceeded before transport" true) in
    let cancelled =
      call_failure (call_error "CANCELLED" "RPC call was cancelled before transport" false) in
    let (_, unaborted) = guard-ok (deadline_passed (deadline_of wire') now) late _ rest in
    let (_, sends) = guard-ok (signal_aborted caller) cancelled (ok wire') unaborted in
    let whole = obj true (set_field "schemaVersion" (num (nat rpc_schema_version)) request) in
    let same : wire' ≡ wire = ok-injective sends in
    let parsed : parse_rpc_request check whole ≡ ok wire =
      subst (λ v. parse_rpc_request check whole ≡ ok v) same
        (lift_thrown-ok (parse_rpc_request check whole) parses) in
    let kept : whole ≡ wire = parse_rpc_request-same check whole wire parsed in
    (kept, subst (λ v. parse_rpc_request check v ≡ ok wire) kept parsed)

receive_chunk-first :
    (deadline : Option ℕ) (now : ℕ) (caller : Signal) (reply : Text)
    → leb (0 + length reply) max_response_bytes ≡ true
    → receive_chunk reply (open_request deadline now caller)
      ≡ record (open_request deadline now caller) { bytes = 0 + length reply; chunks = reply }
unfolding receive_chunk receive open_request
receive_chunk-first deadline now caller reply fits = rw fits

-- The two callbacks of a response that arrives in one piece.
receives :
    (check : Schema → Value → Bool) (decode : Text → Result Thrown Value) (id : Value)
    (deadline : Option ℕ) (now : ℕ) (caller : Signal) (reply : Text) (envelope : Value)
    → length reply ≤ max_response_bytes
    → decode reply ≡ ok envelope
    → (deliver_all check decode id
        (response_data reply ∷ response_end ∷ [])
        (open_request deadline now caller)).outcomes
      ≡ parsed_outcome id (parse_rpc_response check envelope) ∷ []
unfolding deliver_all deliver open_request settle_with decoded_outcome
receives check decode id deadline now caller reply envelope small decodes =
    let fits : leb (0 + length reply) max_response_bytes ≡ true = ground arith in
    let first = receive_chunk-first deadline now caller reply fits in
    ap (λ s. (settle_with (decoded_outcome check decode id (decode s.chunks)) s).outcomes) first
    ∙ ap (λ d. decoded_outcome check decode id d ∷ []) decodes

module _ {S : Type 0} (around : Surroundings S) (s : S) (wire : Value) where
  abbrev pub dispatched : Result Failure Value × S
  dispatched = dispatch_rpc around.check around.print around.components wire s

  handles :
      (body : Text)
      → around.parse_json body ≡ ok wire
      → unsupported (read_requested_schema_version around.is_integer wire) ≡ none
      → parse_rpc_request around.check wire ≡ ok wire
      → deadline_expired wire around.now ≡ false
      → handle_http_request around "POST" "/rpc" (ok body) fresh_response s
        ≡ (sent (envelope_of (text_of (property "requestId" wire)) dispatched.0), dispatched.1)
  unfolding handle_http_request answer_route answer_json answer_decoded answer_version answer_parsed
      answer_request
  handles body decodes version parses in_time =
      ap (λ r. answer_json around r fresh_response s) decodes
      ∙ ap (λ v. answer_version around wire v fresh_response s) version
      ∙ ap (λ r. answer_parsed around (request_id_of wire) r fresh_response s) parses
      ∙ ap (λ b. answer_request around wire b fresh_response s) in_time
      ∙ answer_result-sent around _ dispatched.0 dispatched.1

  -- A call that the client sends to `POST /rpc` comes back as what the dispatch has answered, when
  -- each side decodes what the other has sent, the daemon does not find the deadline passed, the
  -- response schema accepts the answer, and the answer is within the maximum size: the handler
  -- writes one envelope, and the client's promise resolves with the result or is rejected with
  -- the error of the dispatch.
  pub call_answered :
      (request : Fields) (caller : Signal) (client_now : ℕ) (deadline : Option ℕ)
      (decode : Text → Result Thrown Value) (id : String) (body reply : Text)
      → call around.check request caller client_now ≡ ok wire
      → property "requestId" wire ≡ str id
      → around.parse_json body ≡ ok wire
      → deadline_expired wire around.now ≡ false
      → decode reply ≡ ok (envelope_of id dispatched.0)
      → parse_rpc_response around.check (envelope_of id dispatched.0)
        ≡ ok (envelope_of id dispatched.0)
      → length reply ≤ max_response_bytes
      → (handle_http_request around "POST" "/rpc" (ok body) fresh_response s
          ≡ (sent (envelope_of id dispatched.0), dispatched.1))
        × ((deliver_all around.check decode
              (property "requestId" wire)
              (response_data reply ∷ response_end ∷ [])
              (open_request deadline client_now caller)).outcomes
            ≡ outcome_of dispatched.0 ∷ [])
  unfolding parsed_outcome text_of
  call_answered request caller client_now deadline decode id body reply sends named decodes in_time
        replies accepts small =
      let (whole, parses) = call-wire around.check request caller client_now wire sends in
      let version =
        subst (λ v. unsupported (read_requested_schema_version around.is_integer v) ≡ none) whole
          (version-supported around.is_integer request) in
      (
        handles body decodes version parses in_time
            ∙ ap (λ v. (sent (envelope_of (text_of v) dispatched.0), dispatched.1)) named,
        receives around.check decode (property "requestId" wire) deadline client_now caller reply
              (envelope_of id dispatched.0) small replies
            ∙ ap (λ r. parsed_outcome (property "requestId" wire) r ∷ []) accepts
            ∙ ap (λ v. answered v (envelope_of id dispatched.0) ∷ []) named
            ∙ ap (λ o. o ∷ []) (answered-envelope id dispatched.0),
      )
