-- ===== src/Operations/Journal/Traces.antt =====
-- Any interleaving of calls of `execute`, of effects that end, and of daemon restarts.
use benchhand.Prelude.{
  ℕ, ◌+◌, ◌≤◌, String, Bool, true, false, ◌&&◌, Option, none, some, List, [], ◌∷◌, ◌≡◌, ◌≢◌, refl,
  arith, if◌then◌else◌, str_eq, str_eq_iff, Result, ok, err, Bool-cases, inl, inr,
}
use benchhand.Contracts.Schema.{accepted, running, Thrown}
use benchhand.Storage.Table.{transaction-result}
use benchhand.Operations.Record.{
  JsonText, OperationRow, OperationRequest, OperationRecord, PrepareOutcome, replay, in_progress,
  reconcile_required,
}
use benchhand.Operations.Journal.{
  Journal, reconcile_interrupted, prepare, prepare_existing, read, Decision, run_effect, answer,
  Effect, begin, start_running, mark_running, transition, not_accepted, begin_prepared,
  answer_record, settle, classify,
}
use benchhand.Operations.Journal.Rows.{row_at, transition_absent}
use benchhand.Operations.Journal.Steps.{MayFollow, Evolves, Evolves-refl, Evolves-trans}
use benchhand.Operations.Journal.Calls.{
  read-none, start_running-state, mark_running-Evolves, begin-Evolves, settle-Evolves,
  reconcile_interrupted-Evolves,
}

-- `call` is `execute` up to its effect, `finish` the rest of it, `restart` the start of a daemon.
pub data Event : Type 0 where
  call : OperationRequest → Event
  finish : String → Effect → Event
  restart : Event

and-true : (a b : Bool) → (a && b) ≡ true → (a ≡ true) × (b ≡ true)
and-true true b h = (refl, h)
and-true false b h = cc

add_none : (b : Bool) (n : ℕ) → b ≡ false → n ≡ 0 → (if b then 1 else 0) + n ≡ 0
add_none b n h k = ground arith

add_at_most_one : (b : Bool) (n : ℕ) → (b ≡ true → n ≡ 0) → n ≤ 1 → (if b then 1 else 0) + n ≤ 1
add_at_most_one true n h k = omega (arith, h refl)
add_at_most_one false n h k = omega arith

abbrev starts : Result Thrown Decision → Bool
starts (ok run_effect) = true
starts _ = false

module _ {T : Type 0} (json : JsonText T) where
  abbrev pub step : Event → Journal T → Journal T
  step (call request) rows = (begin json request rows).1
  step (finish id outcome) rows = (settle json id outcome rows).1
  step restart rows = (reconcile_interrupted rows).1

  unfoldable pub run : List Event → Journal T → Journal T
  run [] rows = rows
  run (event ∷ events) rows = run events (step event rows)

  -- Whether the event starts the effect of the operation.
  abbrev pub starts_effect : String → Event → Journal T → Bool
  starts_effect id (call request) rows =
      str_eq request.operation_id id && starts (begin json request rows).0
  starts_effect id _ rows = false

  -- How often the effect of the operation is started.
  pub effects_started : String → List Event → Journal T → ℕ
  effects_started id [] rows = 0
  effects_started id (event ∷ events) rows =
      (if starts_effect id event rows then 1 else 0) + effects_started id events (step event rows)

  step-Evolves : (event : Event) (rows : Journal T) → Evolves rows (step event rows)
  step-Evolves (call request) rows = begin-Evolves json request rows
  step-Evolves (finish id outcome) rows = settle-Evolves json id outcome rows
  step-Evolves restart rows = reconcile_interrupted-Evolves rows

  -- Whatever calls, ends of effects and restarts happen, in any order: if ids are unique before,
  -- they are after; a row keeps its id, kind and fingerprint and is never removed; its version
  -- never falls; its state only moves along the allowed transitions; and a row that is committed,
  -- failed, rolled back or waiting for reconciliation is never changed at all.
  pub run-Evolves : (events : List Event) (rows : Journal T) → Evolves rows (run events rows)
  unfolding run
  run-Evolves [] rows = Evolves-refl rows
  run-Evolves (event ∷ events) rows =
      Evolves-trans rows (step event rows) _ (step-Evolves event rows)
        (run-Evolves events (step event rows))

  pub bound_stays :
      (id : String) (a b : Journal T) → Evolves a b → row_at id a ≢ none → row_at id b ≢ none
  bound_stays id a b h bound gone = go (row_at id a) (row_at id b) bound gone (h.follows id)
    where
      go : (o p : Option (OperationRow T)) → o ≢ none → p ≡ none → MayFollow o p → ⊥
      go none p bound gone f = bound refl
      go (some r) none bound gone f = f
      go (some r) (some r') bound gone f = cc

  classify-ne-execute :
      (request : OperationRequest) (found : OperationRecord)
      → classify request found ≢ ok PrepareOutcome.execute
  unfolding classify
  classify-ne-execute request found h = ground arith

  prepare_existing_bound :
      (request : OperationRequest) (rows : Journal T)
      (found : Result Thrown (Option OperationRecord))
      → found ≢ ok none
      → (prepare_existing json request found rows).0 ≢ ok PrepareOutcome.execute
  unfolding prepare_existing
  prepare_existing_bound request rows (err e) there h = cc
  prepare_existing_bound request rows (ok none) there h = there refl
  prepare_existing_bound request rows (ok (some existing)) there h =
      classify-ne-execute request existing h

  -- A bound id is never prepared for execution again.
  prepare_bound :
      (request : OperationRequest) (rows : Journal T)
      → row_at request.operation_id rows ≢ none
      → (prepare json request rows).0 ≢ ok PrepareOutcome.execute
  unfolding prepare
  prepare_bound request rows bound h =
      prepare_existing_bound request rows (read json request.operation_id rows)
        (λ gone. bound (read-none json request.operation_id rows gone)) (rw transaction-result at h)

  answer_record-ne-run_effect :
      (id : String) (found : OperationRecord) → answer_record json id found ≢ ok run_effect
  unfolding answer_record
  answer_record-ne-run_effect id found h = ground arith

  begin_prepared_bound :
      (request : OperationRequest) (p : Result Thrown PrepareOutcome × Journal T)
      → p.0 ≢ ok PrepareOutcome.execute
      → (begin_prepared json request p).0 ≢ ok run_effect
  unfolding begin_prepared
  begin_prepared_bound request (err e, rows) never h = cc
  begin_prepared_bound request (ok (in_progress state), rows) never h = cc
  begin_prepared_bound request (ok reconcile_required, rows) never h = cc
  begin_prepared_bound request (ok (replay found), rows) never h =
      answer_record-ne-run_effect request.operation_id found h
  begin_prepared_bound request (ok PrepareOutcome.execute, rows) never h = never refl

  pub begin_bound :
      (request : OperationRequest) (rows : Journal T)
      → row_at request.operation_id rows ≢ none
      → (begin json request rows).0 ≢ ok run_effect
  unfolding begin
  begin_bound request rows bound =
      begin_prepared_bound request (prepare json request rows) (prepare_bound request rows bound)

  starts-eq-true : (d : Result Thrown Decision) → starts d ≡ true → d ≡ ok run_effect
  starts-eq-true (ok run_effect) h = refl
  starts-eq-true (ok (answer outcome)) h = cc
  starts-eq-true (err e) h = cc

  starts_effect_bound :
      (id : String) (event : Event) (rows : Journal T)
      → row_at id rows ≢ none
      → starts_effect id event rows ≡ false
  starts_effect_bound id (call request) rows bound =
      elim (Bool-cases (starts_effect id (call request) rows)) [
        | inl yes' ↦
            let p = and-true (str_eq request.operation_id id) _ yes' in
            absurd (
              begin_bound request rows (rw ((str_eq_iff request.operation_id id).0 p.0) bound)
                (starts-eq-true _ p.1))
        | inr no' ↦ no'
      ]
  starts_effect_bound id (finish j outcome) rows bound = refl
  starts_effect_bound id restart rows bound = refl

  -- Once an id is bound, no sequence of calls, ends of effects and restarts starts its effect.
  pub effects_started_bound :
      (id : String) (events : List Event) (rows : Journal T)
      → row_at id rows ≢ none
      → effects_started id events rows ≡ 0
  unfolding effects_started
  effects_started_bound id [] rows bound = refl
  effects_started_bound id (event ∷ events) rows bound =
      add_none (starts_effect id event rows) _ (starts_effect_bound id event rows bound) (
        effects_started_bound id events (step event rows)
          (bound_stays id rows (step event rows) (step-Evolves event rows) bound))

  mark_running_binds :
      (id : String) (rows : Journal T)
      → (start_running json id (mark_running id rows)).0 ≡ ok run_effect
      → row_at id rows ≢ none
  unfolding mark_running start_running
  mark_running_binds id rows h gone =
      failed_start
        (transition id accepted (not_accepted id)
          (λ row. record row { state = running; version = row.version + 1 }) rows)
        (transition_absent id accepted (not_accepted id)
          (λ row. record row { state = running; version = row.version + 1 }) rows gone)
        h
    where
      failed_start :
          (p : Result Thrown (Unit {0}) × Journal T)
          → p.0 ≡ err (not_accepted id)
          → (start_running json id p).0 ≢ ok run_effect
      failed_start (ok _, now) e h = cc
      failed_start (err _, now) e h = cc

  begin_prepared_binds :
      (request : OperationRequest) (p : Result Thrown PrepareOutcome × Journal T)
      → (begin_prepared json request p).0 ≡ ok run_effect
      → row_at request.operation_id (begin_prepared json request p).1 ≢ none
  unfolding begin_prepared
  begin_prepared_binds request (err e, rows) h = cc
  begin_prepared_binds request (ok (in_progress state), rows) h = cc
  begin_prepared_binds request (ok reconcile_required, rows) h = cc
  begin_prepared_binds request (ok (replay found), rows) h =
      absurd (answer_record-ne-run_effect request.operation_id found h)
  begin_prepared_binds request (ok PrepareOutcome.execute, rows) h =
      rw (start_running-state json request.operation_id (mark_running request.operation_id rows)) (
        bound_stays request.operation_id rows (mark_running request.operation_id rows).1
          (mark_running-Evolves request.operation_id rows)
          (mark_running_binds request.operation_id rows h))

  starts_effect_binds :
      (id : String) (event : Event) (rows : Journal T)
      → starts_effect id event rows ≡ true
      → row_at id (step event rows) ≢ none
  unfolding begin
  starts_effect_binds id (call request) rows h =
      let p = and-true (str_eq request.operation_id id) _ h in
      rw (← (str_eq_iff request.operation_id id).0 p.0)
        (begin_prepared_binds request (prepare json request rows) (starts-eq-true _ p.1))
  starts_effect_binds id (finish j outcome) rows h = cc
  starts_effect_binds id restart rows h = cc

  -- From any journal, whatever calls of `execute`, ends of effects and daemon restarts follow, in
  -- any order, the effect of one operation id is started at most once.
  pub effects_started-le-one :
      (id : String) (events : List Event) (rows : Journal T) → effects_started id events rows ≤ 1
  unfolding effects_started
  effects_started-le-one id [] rows = omega arith
  effects_started-le-one id (event ∷ events) rows =
      add_at_most_one (starts_effect id event rows) _
        (λ now.
          effects_started_bound id events (step event rows) (starts_effect_binds id event rows now))
        (effects_started-le-one id events (step event rows))
