-- ===== src/Operations/Journal/Once.antt =====
-- From the first run of an operation's effect to every later call with the same id.

use benchhand.Prelude.{
  ◌+◌, String, Bool, true, false, Option, none, some, List, [], ◌∷◌, ◌++◌, ◌≡◌, ◌≢◌, refl, sym,
  arith, ap, if◌then◌else◌, str_eq, str_eq_refl, Result, ok, err, ◌∙◌, Option-cases, Bool-cases,
  inl, inr,
}
use benchhand.Contracts.Value.{Value, is_json_value}
use benchhand.Contracts.Schema.{running, committed, Thrown, result_of}
use benchhand.Storage.Table.{transaction_ok}
use benchhand.Operations.Record.{
  JsonText, OperationRow, OperationRequest, OperationRecord, PrepareOutcome, replay, in_progress,
  reconcile_required, OperationExecutionOutcome, executed, replayed_committed,
}
use benchhand.Operations.Record.Reading.{parse_success_envelope, record_of_committed, record_with}
use benchhand.Operations.Journal.{
  Journal, not_committable, prepare, prepare_existing, insert_row, new_row, read, read_found,
  Decision, run_effect, answer, begin, begin_prepared, mark_running, mark_committed, Effect,
  returned, threw, settle, commit_result, after_commit, fail_with, rethrow, mark_failed, execute,
  run_decision, settle_after, answer_record, start_running,
}
use benchhand.Operations.Journal.Rows.{
  row_at, IsKeyed, is_at, transition-row_at, transition-result, insert_row-row_at,
}
use benchhand.Operations.Journal.Steps.{Follows, MayFollow, MayFollow-trans, Evolves}
use benchhand.Operations.Journal.Calls.{start_running-state, mark_running-Evolves, begin-Evolves}
use benchhand.Operations.Journal.Traces.{Event, run, run-Evolves, begin_bound}
use benchhand.Operations.Journal.Replay.{begin_known}

module _ {T : Type 0} (json : JsonText T) where
  -- The row that `row_at` finds is committed with this result.
  pub record IsCommitted (v : Value) (request : OperationRequest) (row : OperationRow T)
      : Type 0 where
    pub id_kept : row.operation_id ≡ request.operation_id
    pub kind_kept : row.kind ≡ request.kind
    pub fingerprint_kept : row.fingerprint ≡ request.fingerprint
    pub state_is : row.state ≡ committed
    pub good : is_json_value v ≡ true
    pub result_is : row.result_json ≡ some (json.stringify v)
    pub error_is : row.error_json ≡ none

  prepare_new :
      (request : OperationRequest) (rows : Journal T)
      → row_at request.operation_id rows ≡ none
      → prepare json request rows ≡ (ok PrepareOutcome.execute, rows ++ new_row request ∷ [])
  unfolding prepare
  prepare_new request rows free =
      transaction_ok (λ now. prepare_existing json request (read json request.operation_id now) now)
        rows (rows ++ new_row request ∷ []) PrepareOutcome.execute
        (unfold prepare_existing read read_found insert_row in rw (free, free))

  new_row_bound :
      (request : OperationRequest) (rows : Journal T)
      → row_at request.operation_id rows ≡ none
      → row_at request.operation_id (rows ++ new_row request ∷ []) ≡ some (new_row request)
  new_row_bound request rows free =
      unfold insert_row in
      (rw (free, str_eq_refl request.operation_id) at
        (insert_row-row_at request rows request.operation_id free))

  begin_new :
      (request : OperationRequest) (rows : Journal T)
      → row_at request.operation_id rows ≡ none
      → MayFollow (some (new_row request)) (row_at request.operation_id (begin json request rows).1)
  unfolding begin begin_prepared
  begin_new request rows free =
      let now = rows ++ new_row request ∷ [] in
      rw
        (
          prepare_new request rows free,
          start_running-state json request.operation_id (mark_running request.operation_id now),
        )
        (rw (new_row_bound request rows free) at
          ((mark_running-Evolves request.operation_id now).follows request.operation_id))

  rethrow-ne-ok :
      (e : Thrown) (p : Result Thrown (Unit {0}) × Journal T) (outcome : OperationExecutionOutcome)
      (rows : Journal T)
      → rethrow json e p ≢ (ok outcome, rows)
  unfolding rethrow
  rethrow-ne-ok e (ok _, now) outcome rows h = ground arith
  rethrow-ne-ok e (err _, now) outcome rows h = ground arith

  fail_with-ne-ok :
      (id : String) (e : Thrown) (now : Journal T) (outcome : OperationExecutionOutcome)
      (rows : Journal T)
      → fail_with json id e now ≢ (ok outcome, rows)
  unfolding fail_with
  fail_with-ne-ok id e now = rethrow-ne-ok e (mark_failed json id _ now)

  after_commit_executed :
      (id : String) (w v : Value) (p : Result Thrown (Unit {0}) × Journal T) (rows' : Journal T)
      → after_commit json id w p ≡ (ok (executed v), rows')
      → (p.0 ≡ ok tt) × (w ≡ v) × (rows' ≡ p.1)
  unfolding after_commit
  after_commit_executed id w v (ok _, now) rows' h = (refl, ground arith, ground arith)
  after_commit_executed id w v (err e, now) rows' h =
      absurd (fail_with-ne-ok id e now (executed v) rows' h)

  abbrev committed_with : Value → OperationRow T → OperationRow T
  committed_with v row = record row {
    state = committed;
    result_json = some (json.stringify v);
    error_json = none;
    version = row.version + 1;
  }

  settled_is_at :
      (id : String) (v : Value) (rows : Journal T)
      → IsKeyed rows
      → (mark_committed json id v rows).0 ≡ ok tt
      → is_at running (row_at id rows) ≡ true
  unfolding mark_committed
  settled_is_at id v rows keyed h =
      let e =
        transition-result id running (not_committable id) (committed_with v) (λ r. refl) rows
          keyed in
      decided (is_at running (row_at id rows)) (sym e ∙ h)
    where
      decided : (b : Bool) → (if b then ok tt else err (not_committable id)) ≡ ok tt → b ≡ true
      decided true h = refl
      decided false h = cc

  settle_executed :
      (id : String) (outcome : Effect) (v : Value) (rows rows' : Journal T)
      → IsKeyed rows
      → settle json id outcome rows ≡ (ok (executed v), rows')
      → (is_json_value v ≡ true)
        × (is_at running (row_at id rows) ≡ true)
        × (rows' ≡ (mark_committed json id v rows).1)
  unfolding settle commit_result result_of
  settle_executed id (threw e) v rows rows' keyed h = absurd (fail_with-ne-ok id e rows _ rows' h)
  settle_executed id (returned w) v rows rows' keyed h = elim (Bool-cases (is_json_value w)) [
    | inl good ↦
        let p =
          after_commit_executed id w v (mark_committed json id w rows) rows'
            (rw (parse_success_envelope json w, good) at h) in
        (rw (← p.1) good, settled_is_at id w rows keyed p.0, rw (← p.1) p.2)
    | inr bad ↦
        absurd (fail_with-ne-ok id _ rows _ rows' (rw (parse_success_envelope json w, bad) at h))
  ]

  -- The row of the id after `#markCommitted` of a running row.
  committed_row :
      (id : String) (v : Value) (rows : Journal T) (row : OperationRow T)
      → row_at id rows ≡ some row
      → is_at running (row_at id rows) ≡ true
      → row_at id (mark_committed json id v rows).1 ≡ some (committed_with v row)
  unfolding mark_committed
  committed_row id v rows row found at =
      rw
        (
          transition-row_at id running (not_committable id) (committed_with v) (λ r. refl) rows id,
          found,
          str_eq_refl id,
        )
        (ground (arith, rw found at at))

  next_row :
      (row : OperationRow T) (o : Option (OperationRow T))
      → MayFollow (some row) o
      → (r : OperationRow T) × (o ≡ some r) × Follows row r
  next_row row none h = absurd h
  next_row row (some r) h = (r, refl, h)

  settle-IsCommitted :
      (request : OperationRequest) (outcome : Effect) (v : Value) (rows rows' : Journal T)
      → IsKeyed rows
      → MayFollow (some (new_row request)) (row_at request.operation_id rows)
      → settle json request.operation_id outcome rows ≡ (ok (executed v), rows')
      → (r : OperationRow T) × (row_at request.operation_id rows' ≡ some r)
        × IsCommitted v request r
  settle-IsCommitted request outcome v rows rows' keyed bound h =
      let (row, found, kept) = next_row (new_row request) _ bound in
      let (good, at, after) = settle_executed request.operation_id outcome v rows rows' keyed h in
      (
        committed_with v row,
        rw after (committed_row request.operation_id v rows row found at),
        record {
          id_kept = kept.same_id;
          kind_kept = kept.same_kind;
          fingerprint_kept = kept.same_fingerprint;
          state_is = refl;
          good = good;
          result_is = refl;
          error_is = refl;
        },
      )

  -- A committed row answers every later call.
  begin_committed :
      (request : OperationRequest) (v : Value) (rows : Journal T) (row : OperationRow T)
      → str_eq request.operation_id "" ≡ false
      → row_at request.operation_id rows ≡ some row
      → IsCommitted v request row
      → begin json request rows ≡ (ok (answer (replayed_committed v)), rows)
  begin_committed request v rows row named found c =
      begin_known json request rows (record_with json row (some v) none) (replayed_committed v)
        (unfold read read_found in
          rw (
            found,
            record_of_committed json row (rw c.id_kept named) v c.good c.result_is c.error_is,
          ))
        c.kind_kept c.fingerprint_kept (rw c.state_is)

  settled_row :
      (v : Value) (request : OperationRequest) (row r : OperationRow T)
      → IsCommitted v request row
      → Follows row r
      → r ≡ row
  settled_row v request row r c f = f.settled_stays (rw c.state_is)

  answer_record-ne-executed :
      (id : String) (found : OperationRecord) (v : Value)
      → answer_record json id found ≢ ok (answer (executed v))
  unfolding answer_record
  answer_record-ne-executed id found v h = ground arith

  start_running-ne-executed :
      (id : String) (p : Result Thrown (Unit {0}) × Journal T) (v : Value)
      → (start_running json id p).0 ≢ ok (answer (executed v))
  unfolding start_running
  start_running-ne-executed id (ok _, now) v h = cc
  start_running-ne-executed id (err e, now) v h = cc

  -- Only an effect that ran makes `executed`.
  begin_prepared-ne-executed :
      (request : OperationRequest) (p : Result Thrown PrepareOutcome × Journal T) (v : Value)
      → (begin_prepared json request p).0 ≢ ok (answer (executed v))
  unfolding begin_prepared
  begin_prepared-ne-executed request (err e, now) v h = cc
  begin_prepared-ne-executed request (ok (in_progress state), now) v h = cc
  begin_prepared-ne-executed request (ok reconcile_required, now) v h = cc
  begin_prepared-ne-executed request (ok (replay found), now) v h =
      answer_record-ne-executed request.operation_id found v h
  begin_prepared-ne-executed request (ok PrepareOutcome.execute, now) v h =
      start_running-ne-executed request.operation_id _ v h

  abbrev Ran :
      OperationRequest
      → (Journal T → Effect × Journal T)
      → Value
      → Journal T
      → Result Thrown Decision × Journal T
      → Type 0
  Ran request effect v rows' d =
      (d.0 ≡ ok run_effect)
      × (settle json request.operation_id (effect d.1).0 (effect d.1).1 ≡ (ok (executed v), rows'))

  run_decision_executed :
      (request : OperationRequest) (effect : Journal T → Effect × Journal T) (v : Value)
      (rows' : Journal T) (d : Result Thrown Decision × Journal T)
      → d.0 ≢ ok (answer (executed v))
      → run_decision json request effect d ≡ (ok (executed v), rows')
      → Ran request effect v rows' d
  unfolding run_decision settle_after
  run_decision_executed request effect v rows' (err e, now) other h = absurd (ground arith)
  run_decision_executed request effect v rows' (ok (answer outcome), now) other h =
      absurd (other (ground arith))
  run_decision_executed request effect v rows' (ok run_effect, now) other h = (refl, h)

  begin_run :
      (request : OperationRequest) (effect : Journal T → Effect × Journal T) (v : Value)
      (rows rows' : Journal T)
      → execute json request effect rows ≡ (ok (executed v), rows')
      → Ran request effect v rows' (begin json request rows)
  unfolding execute begin
  begin_run request effect v rows rows' h =
      run_decision_executed request effect v rows' _
        (begin_prepared-ne-executed request (prepare json request rows) v) h

  execute-IsCommitted :
      (request : OperationRequest) (effect : Journal T → Effect × Journal T) (v : Value)
      (rows rows' : Journal T)
      → IsKeyed rows
      → ((now : Journal T) → Evolves now (effect now).1)
      → execute json request effect rows ≡ (ok (executed v), rows')
      → (r : OperationRow T) × (row_at request.operation_id rows' ≡ some r)
        × IsCommitted v request r
  execute-IsCommitted request effect v rows rows' keyed others h =
      let (runs, settles) = begin_run request effect v rows rows' h in
      let now = (begin json request rows).1 in
      elim (Option-cases (row_at request.operation_id rows)) [
        | inl free ↦
            settle-IsCommitted request (effect now).0 v (effect now).1 rows'
              ((others now).keyed ((begin-Evolves json request rows).keyed keyed))
              (MayFollow-trans (some (new_row request)) _ _ (begin_new request rows free)
                ((others now).follows request.operation_id))
              settles
        | inr bound ↦ absurd (begin_bound json request rows (λ gone. cc (sym bound.1 ∙ gone)) runs)
      ]

  -- After a call that executed its effect with the result v, while the effect ran interleaved with
  -- any other calls, and after any further calls, ends of effects and restarts, a call with the
  -- same request replays v, whatever its effect is, and changes no row.
  pub execute_replays :
      (request : OperationRequest) (effect : Journal T → Effect × Journal T) (v : Value)
      (rows rows' : Journal T) (events : List Event) (other : Journal T → Effect × Journal T)
      → str_eq request.operation_id "" ≡ false
      → IsKeyed rows
      → ((now : Journal T) → Evolves now (effect now).1)
      → execute json request effect rows ≡ (ok (executed v), rows')
      → execute json request other (run json events rows')
        ≡ (ok (replayed_committed v), run json events rows')
  unfolding execute run_decision
  execute_replays request effect v rows rows' events other named keyed others h =
      let (row, found, c) = execute-IsCommitted request effect v rows rows' keyed others h in
      let later = (run-Evolves json events rows').follows request.operation_id in
      let (r, found', f) = next_row row _ (rw found at later) in
      rw (
        begin_committed request v (run json events rows') row named
          (found' ∙ ap some (settled_row v request row r c f)) c)
