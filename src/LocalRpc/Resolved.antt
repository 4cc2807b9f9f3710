-- ===== src/LocalRpc/Resolved.antt =====
-- What a request over the socket that resolves has received.
use benchhand.Prelude.{
  ℕ, String, Bool, true, false, not, Option, none, some, List, [], ◌∷◌, ◌++◌, ◌+◌, if◌then◌else◌,
  leb, any, ◌≤◌, ◌<◌, length, Result, ok, err, ◌≡◌, refl, arith, Bool-cases, inl, inr, ap, sym, ◌∙◌,
  subst, ◌≢◌, str_eq_iff, append-nil, append_assoc,
}
use benchhand.Prelude.Text.{Text}
use benchhand.Contracts.Value.{Value, str, bool, property}
use benchhand.Contracts.Schema.{Schema, Thrown, parse_rpc_response}
use benchhand.LocalRpc.{max_response_bytes, Signal}
use benchhand.LocalRpc.Transport.{
  Outcome, resolved, RequestState, TransportEvent, caller_aborts, deadline_fires, response_data,
  response_end, response_failed, request_failed, open_request, settle_with, request_outcome,
  receive, receive_chunk, abort_by_caller, fire_deadline, decoded_outcome, parsed_outcome, deliver,
  deliver_all, answered, same_text, is_ok, is_unavailable, transport_failure,
}
use benchhand.LocalRpc.Settlement.{
  IsSound, is_last, deliver-IsSound, open_request-IsSound, deliver_all-settled, settle_with-fresh,
}
use benchhand.LocalRpc.Failures.{deliver-quiet}

-- The chunks that arrive, in order.
abbrev pub chunks_of : List TransportEvent → List Text
chunks_of [] = []
chunks_of (response_data chunk ∷ events) = chunk ∷ chunks_of events
chunks_of (_ ∷ events) = chunks_of events

-- The chunks joined, as far as the total stays within the maximum size.
abbrev pub fitting : (total : ℕ) → List Text → Text
fitting total [] = []
fitting total (chunk ∷ chunks) =
    let rest = fitting (total + length chunk) chunks in
    if leb (total + length chunk) max_response_bytes then chunk ++ rest else []

fitting-over :
    (total : ℕ) (chunks : List Text) → max_response_bytes < total → fitting total chunks ≡ []
fitting-over total [] over = refl
fitting-over total (chunk ∷ chunks) over = ground arith

same_text-≡ : (a : Value) (id : String) → same_text a (str id) ≡ true → a ≡ str id
unfolding same_text
same_text-≡ (str a) id h = ap str ((str_eq_iff a id).0 h)
same_text-≡ _ id h = absurd cc

module _ (check : Schema → Value → Bool) (decode : Text → Result Thrown Value)
    (request_id : Value) where
  -- Where a result comes from.
  pub record Answers (v : Value) (body : Text) (response : Value) : Type 0 where
    pub small : length body ≤ max_response_bytes
    pub decodes :
        (decoded : Value) × (decode body ≡ ok decoded)
        × (parse_rpc_response check decoded ≡ ok response)
    pub same_request : same_text (property "requestId" response) request_id ≡ true
    pub succeeded : property "ok" response ≡ bool true
    pub has_result : property "result" response ≡ v

  abbrev Answered : Value → Text → Type 0
  Answered v body = (response : Value) × Answers v body response

  is_ok-true : (v : Value) → is_ok v ≡ true → v ≡ bool true
  unfolding is_ok
  is_ok-true (bool b) h = ap bool h
  is_ok-true _ h = absurd cc

  answered-resolved :
      (response v : Value)
      → answered request_id response ≡ resolved v
      → (same_text (property "requestId" response) request_id ≡ true)
        × (property "ok" response ≡ bool true)
        × (property "result" response ≡ v)
  unfolding answered
  answered-resolved response v h =
      elim (Bool-cases (same_text (property "requestId" response) request_id)) [
        | inr differs ↦ absurd (ground arith)
        | inl same ↦ elim (Bool-cases (is_ok (property "ok" response))) [
          | inr failed ↦ absurd (ground arith)
          | inl succeeds ↦ (same, is_ok-true _ succeeds, ground arith)
        ]
      ]

  parsed-resolved :
      (body : Text) (decoded v : Value) (parsed : Result Thrown Value)
      → length body ≤ max_response_bytes
      → decode body ≡ ok decoded
      → parse_rpc_response check decoded ≡ parsed
      → parsed_outcome request_id parsed ≡ resolved v
      → Answered v body
  unfolding parsed_outcome
  parsed-resolved body decoded v (err e) small decodes parses h = absurd (ground arith)
  parsed-resolved body decoded v (ok response) small decodes parses h =
      let (same, succeeds, result) = answered-resolved response v h in
      (
        response,
        record {
          small = small;
          decodes = (decoded, decodes, parses);
          same_request = same;
          succeeded = succeeds;
          has_result = result;
        },
      )

  decoded-resolved :
      (body : Text) (v : Value) (read : Result Thrown Value)
      → length body ≤ max_response_bytes
      → decode body ≡ read
      → decoded_outcome check decode request_id read ≡ resolved v
      → Answered v body
  unfolding decoded_outcome
  decoded-resolved body v (err e) small decodes h = absurd (ground arith)
  decoded-resolved body v (ok decoded) small decodes h =
      parsed-resolved body decoded v _ small decodes refl h

  request_outcome-rejects :
      (t c : Bool) (code : Option String) (message : String) (v : Value)
      → request_outcome t c code message ≢ resolved v
  unfolding request_outcome
  request_outcome-rejects true c code message v h = cc
  request_outcome-rejects false true code message v h = cc
  request_outcome-rejects false false code message v h = elim (Bool-cases (is_unavailable code)) [
    | inl gone ↦ absurd (ground arith)
    | inr other ↦ absurd (ground arith)
  ]

  -- What is kept in a state and what will be, of the chunks that come before the end.
  abbrev kept_with : RequestState → List TransportEvent → Text
  kept_with s before = s.chunks ++ fitting s.bytes (chunks_of before)

  receive-kept :
      (too_long : Bool) (chunk : Text) (before : List TransportEvent) (s : RequestState)
      → leb (s.bytes + length chunk) max_response_bytes ≡ not too_long
      → kept_with (receive too_long chunk (s.bytes + length chunk) s) before
        ≡ kept_with s (response_data chunk ∷ before)
  unfolding receive
  receive-kept true chunk before s size = rw size (
      ap (λ rest. s.chunks ++ rest)
        (fitting-over (s.bytes + length chunk) (chunks_of before) (ground (arith, size))))
  receive-kept false chunk before s size =
      rw size (append_assoc s.chunks chunk (fitting (s.bytes + length chunk) (chunks_of before)))

  fire_deadline-kept :
      (timer : Option ℕ) (before : List TransportEvent) (s : RequestState)
      → kept_with (fire_deadline timer s) before ≡ kept_with s before
  unfolding fire_deadline
  fire_deadline-kept none before s = refl
  fire_deadline-kept (some delay) before s = refl

  deliver-kept :
      (event : TransportEvent) (before : List TransportEvent) (s : RequestState)
      → is_last event ≡ false
      → kept_with (deliver check decode request_id event s) before ≡ kept_with s (event ∷ before)
  unfolding deliver abort_by_caller fire_deadline receive_chunk
  deliver-kept caller_aborts before s quiet = elim (Bool-cases s.listening) [
    | inl listens ↦ rw listens refl
    | inr deaf ↦ rw deaf refl
  ]
  deliver-kept deadline_fires before s quiet = fire_deadline-kept s.timer before s
  deliver-kept (response_data chunk) before s quiet =
      receive-kept (not (leb (s.bytes + length chunk) max_response_bytes)) chunk before s
        (ground arith)
  deliver-kept response_end before s quiet = absurd cc
  deliver-kept (response_failed message) before s quiet = absurd cc
  deliver-kept (request_failed code message) before s quiet = absurd cc

  -- The events go to the end of a response, and the bytes kept before it answer with a value.
  abbrev pub EndsWith : (kept : List TransportEvent → Text) → List TransportEvent → Value → Type 0
  EndsWith kept events v =
      (before after : List TransportEvent) × (response : Value) × (events
        ≡ before ++ response_end ∷ after)
      × (any is_last before ≡ false)
      × Answers v (kept before) response

  settled_with :
      (o : Outcome) (s : RequestState) (events : List TransportEvent)
      → s.settled ≡ false
      → s.outcomes ≡ []
      → (deliver_all check decode request_id events (settle_with o s)).outcomes ≡ o ∷ []
  settled_with o s events fresh none_yet =
      let first = settle_with-fresh o s fresh in
      (deliver_all-settled check decode request_id events (settle_with o s)
        (ap (λ s'. s'.settled) first)).1
      ∙ ap (λ s'. s'.outcomes) first
      ∙ ap (λ os. o ∷ os) none_yet

  resolves_behind :
      (event : TransportEvent) (events : List TransportEvent) (s : RequestState) (v : Value)
      → is_last event ≡ false
      → s.settled ≡ false
      → s.outcomes ≡ []
      → (((deliver check decode request_id event s).settled ≡ false)
          → ((deliver check decode request_id event s).outcomes ≡ [])
          → EndsWith (kept_with (deliver check decode request_id event s)) events v)
      → EndsWith (kept_with s) (event ∷ events) v
  resolves_behind event events s v quiet fresh none_yet later =
      let (_, _, same, reports) = deliver-quiet check decode request_id event [] s quiet in
      let (before, after, response, splits, calm, answers) =
        later (same ∙ fresh) (reports ∙ none_yet) in
      (
        event ∷ before,
        after,
        response,
        ap (λ es. event ∷ es) splits,
        ground (arith, quiet, calm),
        subst (λ body. Answers v body response) (deliver-kept event before s quiet) answers,
      )

  resolves_at :
      (events : List TransportEvent) (s : RequestState) (v : Value)
      → IsSound s
      → s.settled ≡ false
      → s.outcomes ≡ []
      → (deliver_all check decode request_id events s).outcomes ≡ resolved v ∷ []
      → EndsWith (kept_with s) events v
  unfolding deliver_all deliver
  resolves_at [] s v sound fresh none_yet h = absurd cc
  resolves_at (response_end ∷ events) s v sound fresh none_yet h =
      let o = decoded_outcome check decode request_id (decode s.chunks) in
      let reported = settled_with o s events fresh none_yet in
      let (response, answers) = decoded-resolved s.chunks v _ sound.bounded refl cc in
      (
        [],
        events,
        response,
        refl,
        refl,
        subst (λ body. Answers v body response) (sym (append-nil s.chunks)) answers,
      )
  resolves_at (response_failed message ∷ events) s v sound fresh none_yet h =
      let reported = settled_with (transport_failure message) s events fresh none_yet in absurd cc
  resolves_at (request_failed code message ∷ events) s v sound fresh none_yet h =
      let o = request_outcome s.timed_out s.cancelled_by_caller code message in
      let reported = settled_with o s events fresh none_yet in
      absurd (request_outcome-rejects s.timed_out s.cancelled_by_caller code message v cc)
  resolves_at (caller_aborts ∷ events) s v sound fresh none_yet h =
      resolves_behind caller_aborts events s v refl fresh none_yet (λ fresh' none'.
        resolves_at events _ v (deliver-IsSound check decode request_id caller_aborts s sound)
          fresh' none' h)
  resolves_at (deadline_fires ∷ events) s v sound fresh none_yet h =
      resolves_behind deadline_fires events s v refl fresh none_yet (λ fresh' none'.
        resolves_at events _ v (deliver-IsSound check decode request_id deadline_fires s sound)
          fresh' none' h)
  resolves_at (response_data chunk ∷ events) s v sound fresh none_yet h =
      resolves_behind (response_data chunk) events s v refl fresh none_yet (λ fresh' none'.
        resolves_at events _ v
          (deliver-IsSound check decode request_id (response_data chunk) s sound) fresh' none' h)

  -- A request resolves only when its response ends and nothing has ended it before: with the result
  -- of a response that the bytes decode to that had arrived by then, in order, those from the first
  -- chunk that passed the maximum size on left out; that response fits the schema, has the `requestId`
  -- of the request, and its `ok` is true.
  pub resolved_request :
      (deadline : Option ℕ) (now : ℕ) (caller : Signal) (events : List TransportEvent) (v : Value)
      → (deliver_all check decode request_id events (open_request deadline now caller)).outcomes
        ≡ resolved v ∷ []
      → EndsWith (λ before. fitting 0 (chunks_of before)) events v
  unfolding open_request
  resolved_request deadline now caller events v h =
      resolves_at events (open_request deadline now caller) v
        (open_request-IsSound check decode request_id deadline now caller) refl refl h
