-- ===== src/Daemon/Body.antt =====
-- `readRequestBody` of packages/daemon/src/index.ts: the callbacks of the incoming request, and the
-- promise, of which the first `resolve` or `reject` counts.
use benchhand.Prelude.{
  ℕ, Bool, true, false, not, Option, none, some, List, [], ◌∷◌, ◌++◌, if◌then◌else◌, ◌≡◌, refl,
  arith, ◌+◌, ◌*◌, leb, length, map, Result, ok, err, Bool-cases, inl, inr, append_assoc,
  append-nil, length-append, ap, ◌∙◌, sym,
}
use benchhand.Prelude.Text.{Text}
use benchhand.Contracts.Schema.{Thrown, error_object}

abbrev pub max_request_bytes : ℕ
max_request_bytes = 1024 * 1024

pub data BodyEvent : Type 0 where
  body_data : (chunk : Text) → BodyEvent
  body_end body_aborted : BodyEvent
  body_error : Thrown → BodyEvent

pub record BodyState : Type 0 where
  pub chunks : Text
  pub bytes : ℕ
  pub destroyed : Bool
  pub answer : Option (Result Thrown Text)

unfoldable pub settle_body : Result Thrown Text → BodyState → BodyState
settle_body outcome s = elim s.answer [
  | none ↦ record s { answer = some outcome }
  | some earlier ↦ s
]

abbrev pub body_too_large : Result Thrown Text
body_too_large = err (error_object "Error" "RPC request exceeds maximum size")

unfoldable pub receive_body : (too_long : Bool) → Text → ℕ → BodyState → BodyState
unfolding settle_body
receive_body true chunk bytes s =
    let settled = settle_body body_too_large s in record settled { bytes = bytes; destroyed = true }
receive_body false chunk bytes s = record s { bytes = bytes; chunks = s.chunks ++ chunk }

unfoldable pub body_step : BodyEvent → BodyState → BodyState
unfolding settle_body receive_body
body_step (body_data chunk) s =
    let bytes = s.bytes + length chunk in
    receive_body (not (leb bytes max_request_bytes)) chunk bytes s
body_step body_end s = settle_body (ok s.chunks) s
body_step body_aborted s = settle_body (err (error_object "Error" "RPC request was aborted")) s
body_step (body_error e) s = settle_body (err e) s

unfoldable pub body_run : List BodyEvent → BodyState → BodyState
unfolding body_step
body_run [] s = s
body_run (event ∷ events) s = body_run events (body_step event s)

abbrev pub no_body : BodyState
no_body = record { chunks = []; bytes = 0; destroyed = false; answer = none }

unfoldable pub read_request_body : List BodyEvent → Option (Result Thrown Text)
unfolding body_run
read_request_body events = (body_run events no_body).answer

-- The whole body.
abbrev pub concatenated : List Text → Text
concatenated [] = []
concatenated (chunk ∷ chunks) = chunk ++ concatenated chunks

settled_step :
    (event : BodyEvent) (s : BodyState) (o : Result Thrown Text)
    → s.answer ≡ some o
    → (body_step event s).answer ≡ some o
unfolding body_step receive_body settle_body
settled_step (body_data chunk) s o h = ground arith
settled_step body_end s o h = ground arith
settled_step body_aborted s o h = ground arith
settled_step (body_error e) s o h = ground arith

settled_run :
    (events : List BodyEvent) (s : BodyState) (o : Result Thrown Text)
    → s.answer ≡ some o
    → (body_run events s).answer ≡ some o
unfolding body_run
settled_run [] s o h = h
settled_run (event ∷ events) s o h = settled_run events _ o (settled_step event s o h)

-- What the listener of `data` makes of a chunk, where nothing is settled yet.
data_fits :
    (chunk : Text) (s : BodyState)
    → leb (s.bytes + length chunk) max_request_bytes ≡ true
    → body_step (body_data chunk) s
      ≡ record s { bytes = s.bytes + length chunk; chunks = s.chunks ++ chunk }
unfolding body_step receive_body
data_fits chunk s fits = rw fits

data_exceeds :
    (chunk : Text) (s : BodyState)
    → s.answer ≡ none
    → leb (s.bytes + length chunk) max_request_bytes ≡ false
    → (body_step (body_data chunk) s).answer ≡ some body_too_large
unfolding body_step receive_body settle_body
data_exceeds chunk s fresh exceeds = ground arith

abbrev measured : Text → Result Thrown Text
measured body = if leb (length body) max_request_bytes then ok body else body_too_large

end_settles : (s : BodyState) → s.answer ≡ none → (body_step body_end s).answer ≡ some (ok s.chunks)
unfolding body_step settle_body
end_settles s fresh = ground arith

measured-small :
    (body : Text) → leb (length body) max_request_bytes ≡ true → measured body ≡ ok body
measured-small body small = rw small

measured-large :
    (body : Text) → leb (length body) max_request_bytes ≡ false → measured body ≡ body_too_large
measured-large body large = rw large

body_run-data :
    (chunks : List Text) (s : BodyState) (later : List BodyEvent)
    → s.answer ≡ none
    → s.bytes ≡ length s.chunks
    → leb s.bytes max_request_bytes ≡ true
    → (body_run (map body_data chunks ++ (body_end ∷ later)) s).answer
      ≡ some (measured (s.chunks ++ concatenated chunks))
unfolding body_run
body_run-data [] s later fresh counted fits =
    let whole = append-nil s.chunks in
    let small : leb (length s.chunks) max_request_bytes ≡ true = rw (sym counted) fits in
    settled_run later _ (ok s.chunks) (end_settles s fresh)
    ∙ ap some (sym (measured-small s.chunks small) ∙ ap measured (sym whole))
body_run-data (chunk ∷ chunks) s later fresh counted fits =
    elim (Bool-cases (leb (s.bytes + length chunk) max_request_bytes)) [
      | inl small ↦
          ap (λ t. (body_run (map body_data chunks ++ (body_end ∷ later)) t).answer)
            (data_fits chunk s small)
          ∙ body_run-data chunks _ later fresh
              (ap (λ n. n + length chunk) counted ∙ sym (length-append s.chunks chunk)) small
          ∙ ap (λ body. some (measured body)) (append_assoc s.chunks chunk (concatenated chunks))
      | inr large ↦
          let longer : leb (length (s.chunks ++ (chunk ++ concatenated chunks))) max_request_bytes
              ≡ false =
            ground (
              arith,
              counted,
              large,
              length-append s.chunks (chunk ++ concatenated chunks),
              length-append chunk (concatenated chunks),
            ) in
          settled_run (map body_data chunks ++ (body_end ∷ later)) _ body_too_large
            (data_exceeds chunk s fresh large)
          ∙ ap some (sym (measured-large _ longer))
    ]

-- A request whose chunks arrive and which then ends gives its whole body, the chunks concatenated, when
-- that has at most the maximum size, and is refused as too large otherwise; what the request
-- reports later changes nothing.
pub read_request_body_joined :
    (chunks : List Text) (later : List BodyEvent)
    → read_request_body (map body_data chunks ++ (body_end ∷ later))
      ≡ some (
          if leb (length (concatenated chunks)) max_request_bytes
          then ok (concatenated chunks)
          else body_too_large)
unfolding read_request_body
read_request_body_joined chunks later = body_run-data chunks no_body later refl refl refl
