-- ===== src/Daemon/Answers.antt =====
-- What the HTTP handler of the daemon writes, and when it reaches the components.
use benchhand.Prelude.{
  String, Bool, true, false, ◌&&◌, Option, none, some, [], ◌∷◌, str_eq, Result, ok, err, ◌>>=◌, ◌≡◌,
  refl, ◌⊎◌, inl, inr, ◌||◌, Bool-cases,
}
use benchhand.Prelude.Text.{Text}
use benchhand.Contracts.Value.{Number, Value, property}
use benchhand.Contracts.Schema.{Thrown, parse_rpc_request}
use benchhand.Daemon.{RpcError, Failure, other_failure, rpc_failure}
use benchhand.Daemon.Dispatch.{dispatch_rpc}
use benchhand.Daemon.Http.{
  HttpResponse, write_json, success_response, failure_response, write_rpc_success, write_rpc_error,
  read_requested_schema_version, unsupported, failure_error, deadline_expired, Surroundings,
  unsupported_error, answer_result, answer_parsed, answer_decoded, answer_request, answer_version,
  answer_json, answer_route, handle_http_request, text_of,
}

-- The envelope for an outcome of the dispatch.
unfoldable pub envelope_of : (request_id : String) → Result Failure Value → Value
envelope_of request_id (ok result) = success_response request_id result
envelope_of request_id (err e) = failure_response request_id (failure_error e)

abbrev pub fresh_response : HttpResponse
fresh_response = record { writable_ended = false; destroyed = false; envelopes = [] }

abbrev pub sent : Value → HttpResponse
sent envelope = record { writable_ended = true; destroyed = false; envelopes = envelope ∷ [] }

pub answer_result-sent :
    {S : Type 0} (around : Surroundings S) (id : String) (result : Result Failure Value) (s : S)
    → answer_result around id (result, s) fresh_response ≡ (sent (envelope_of id result), s)
unfolding answer_result envelope_of write_rpc_success write_rpc_error write_json
answer_result-sent around id (ok v) s = refl
answer_result-sent around id (err e) s = refl

-- What writing an envelope makes of a response: nothing if the response has ended or its socket is
-- destroyed, and else the envelope is sent and ends it.
abbrev pub Written : (before : HttpResponse) → Value → (after : HttpResponse) → Type 0
Written before envelope after =
    (((before.writable_ended || before.destroyed) ≡ true) × (after ≡ before))
    ⊎ (((before.writable_ended || before.destroyed) ≡ false)
        × (after
            ≡ record before { writable_ended = true; envelopes = envelope ∷ before.envelopes }))

write_json-Written :
    (envelope : Value) (before : HttpResponse)
    → Written before envelope (write_json envelope before)
unfolding write_json
write_json-Written envelope before = elim (Bool-cases (before.writable_ended || before.destroyed)) [
  | inl over ↦ inl (over, rw over refl)
  | inr fresh ↦ inr (fresh, rw fresh refl)
]

answer_result-Written :
    {S : Type 0} (around : Surroundings S) (id : String) (result : Result Failure Value) (s : S)
    (response : HttpResponse)
    → Written response (envelope_of id result) (answer_result around id (result, s) response).0
      × ((answer_result around id (result, s) response).1 ≡ s)
unfolding answer_result envelope_of write_rpc_success write_rpc_error
answer_result-Written around id (ok v) s response = (write_json-Written _ response, refl)
answer_result-Written around id (err e) s response = (write_json-Written _ response, refl)

module _ {S : Type 0} (around : Surroundings S) (s : S) (response : HttpResponse) where
  -- A refusal leaves the components alone.
  abbrev pub Refused : (request_id : String) → HttpResponse × S → Type 0
  Refused request_id (after, s') =
      (error : RpcError) × Written response (failure_response request_id error) after × (s' ≡ s)

  -- The way to the components.
  pub record Dispatched (body : Result Thrown Text) (answer : HttpResponse × S) : Type 0 where
    pub decoded : Value
    pub decodes : (body >>= around.parse_json) ≡ ok decoded
    pub version : unsupported (read_requested_schema_version around.is_integer decoded) ≡ none
    pub request : Value
    pub parses : parse_rpc_request around.check decoded ≡ ok request
    pub in_time : deadline_expired request around.now ≡ false
    pub responds :
        Written response
          (envelope_of
            (text_of (property "requestId" request))
            (dispatch_rpc around.check around.print around.components request s).0)
          answer.0
    pub continues :
        answer.1 ≡ (dispatch_rpc around.check around.print around.components request s).1

  write_rpc_error-Refused :
      (id : String) (error : RpcError) → Refused id (write_rpc_error id error response, s)
  unfolding write_rpc_error
  write_rpc_error-Refused id error = (error, write_json-Written _ response, refl)

  abbrev Answered : Result Thrown Text → HttpResponse × S → Type 0
  Answered body answer = ((id : String) × Refused id answer) ⊎ Dispatched body answer

  module _ (body : Result Thrown Text) (decoded : Value)
      (decodes : (body >>= around.parse_json) ≡ ok decoded) where
    answer_request-cases :
        (request : Value) (expired : Bool)
        → unsupported (read_requested_schema_version around.is_integer decoded) ≡ none
        → parse_rpc_request around.check decoded ≡ ok request
        → deadline_expired request around.now ≡ expired
        → Answered body (answer_request around request expired response s)
    unfolding answer_request
    answer_request-cases request true version parses in_time = inl (
      _,
      write_rpc_error-Refused _
          (rpc_failure "TIMEOUT" "RPC deadline exceeded before dispatch" true),
    )
    answer_request-cases request false version parses in_time =
        let answers =
          answer_result-Written around (text_of (property "requestId" request))
            (dispatch_rpc around.check around.print around.components request s).0
            (dispatch_rpc around.check around.print around.components request s).1 response in
        inr (record {
          decoded = decoded;
          decodes = decodes;
          version = version;
          request = request;
          parses = parses;
          in_time = in_time;
          responds = answers.0;
          continues = answers.1;
        })

    answer_parsed-cases :
        (id : String) (parsed : Result Thrown Value)
        → unsupported (read_requested_schema_version around.is_integer decoded) ≡ none
        → parse_rpc_request around.check decoded ≡ parsed
        → Answered body (answer_parsed around id parsed response s)
    unfolding answer_parsed
    answer_parsed-cases id (err e) version parses =
        inl (_, write_rpc_error-Refused _ (failure_error (other_failure e)))
    answer_parsed-cases id (ok request) version parses =
        answer_request-cases request _ version parses refl

    answer_version-cases :
        (version : Option Number)
        → unsupported (read_requested_schema_version around.is_integer decoded) ≡ version
        → Answered body (answer_version around decoded version response s)
    unfolding answer_version
    answer_version-cases (some version) found =
        inl (_, write_rpc_error-Refused _ (unsupported_error around version))
    answer_version-cases none found = answer_parsed-cases _ _ found refl

  answer_json-cases :
      (body : Result Thrown Text) (read : Result Thrown Value)
      → (body >>= around.parse_json) ≡ read
      → Answered body (answer_json around read response s)
  unfolding answer_json answer_decoded
  answer_json-cases body (err e) decodes =
      inl (_, write_rpc_error-Refused _ (failure_error (other_failure e)))
  answer_json-cases body (ok decoded) decodes = answer_version-cases body decoded decodes _ refl

  answer_route-cases :
      (routed : Bool) (body : Result Thrown Text)
      → ((id : String) × Refused id (answer_route around routed body response s))
        ⊎ ((routed ≡ true) × Dispatched body (answer_route around routed body response s))
  unfolding answer_route
  answer_route-cases false body = inl (
    _,
    write_rpc_error-Refused _ (rpc_failure "METHOD_NOT_FOUND" "Only POST /rpc is supported" false),
  )
  answer_route-cases true body = elim (answer_json-cases body _ refl) [
    | inl refused ↦ inl refused
    | inr dispatched ↦ inr (refl, dispatched)
  ]

  -- For every HTTP request one envelope is written, which sends and ends the response unless that has
  -- ended or its socket is destroyed; then nothing is sent. The envelope is either a failure, and then no component
  -- has been called, or the outcome of the dispatch, and then the request was `POST /rpc`, its body
  -- was read and decoded, the version was supported, the schema accepted the request, and its
  -- deadline had not passed.
  pub handle_http_request_answers :
      (method url : String) (body : Result Thrown Text)
      → ((id : String) × Refused id (handle_http_request around method url body response s))
        ⊎ (((str_eq method "POST" && str_eq url "/rpc") ≡ true)
            × Dispatched body (handle_http_request around method url body response s))
  unfolding handle_http_request
  handle_http_request_answers method url body = answer_route-cases _ body
