-- ===== src/Operations/Journal/Calls.antt =====
-- How each call on the journal lets the rows evolve.

use benchhand.Prelude.{
  ◌+◌, String, Bool, true, false, Option, none, some, ◌≡◌, refl, arith, if◌then◌else◌, str_eq,
  str_eq_iff, Result, ok, err,
}
use benchhand.Contracts.Value.{Value}
use benchhand.Contracts.Schema.{
  accepted, running, committed, failed, Thrown, parse_result_envelope, success_envelope, result_of,
}
use benchhand.Storage.Table.{transaction_keeps}
use benchhand.Operations.Record.{
  JsonText, OperationRow, OperationRequest, OperationRecord, SerializedOperationError,
  PrepareOutcome, replay, in_progress, reconcile_required, error_value, serialize_error,
}
use benchhand.Operations.Journal.{
  Journal, not_accepted, not_committable, not_failable, mark_running, mark_committed, mark_failed,
  new_row, reconcile_interrupted, prepare, prepare_existing, insert_row, read, read_found, Effect,
  returned, threw, begin, begin_prepared, start_running, settle, fail_with, rethrow, commit_result,
  after_commit,
}
use benchhand.Operations.Journal.Rows.{
  row_at, insert_row-IsKeyed, insert_row-row_at, interrupted_row, reconcile_interrupted-row_at,
  reconcile_interrupted-IsKeyed,
}
use benchhand.Operations.Journal.Steps.{
  Follows, MayFollow, MayFollow-map, MayFollow-refl, Evolves, Evolves-refl, Evolves-trans,
  transition-Evolves,
}

module _ {T : Type 0} where
  pub mark_running-Evolves :
      (id : String) (rows : Journal T) → Evolves rows (mark_running id rows).1
  unfolding mark_running
  mark_running-Evolves id rows =
      transition-Evolves id accepted (not_accepted id)
        (λ row. record row { state = running; version = row.version + 1 }) rows (λ r. refl)
        (λ r h. ground arith)

  interrupted_row-Follows : (r : OperationRow T) → Follows r (interrupted_row r)
  interrupted_row-Follows r = ground arith

  pub reconcile_interrupted-Evolves :
      (rows : Journal T) → Evolves rows (reconcile_interrupted rows).1
  reconcile_interrupted-Evolves rows = record {
    keyed = reconcile_interrupted-IsKeyed rows;
    follows = λ j.
        rw reconcile_interrupted-row_at
          (MayFollow-map interrupted_row (row_at j rows) interrupted_row-Follows);
  }

  appears-MayFollow :
      (b : Bool) (o : Option (OperationRow T)) (row : OperationRow T)
      → (b ≡ true → o ≡ none)
      → MayFollow o (if b then some row else o)
  appears-MayFollow true none row h = tt
  appears-MayFollow true (some r) row h = cc (h refl)
  appears-MayFollow false o row h = MayFollow-refl o

  insert_row-Evolves :
      (request : OperationRequest) (rows : Journal T)
      → row_at request.operation_id rows ≡ none
      → Evolves rows (insert_row request rows).1
  insert_row-Evolves request rows free = record {
    keyed = insert_row-IsKeyed request rows;
    follows = λ j. rw (insert_row-row_at request rows j free) (
        appears-MayFollow (str_eq request.operation_id j) (row_at j rows) (new_row request)
          (λ e. rw (← (str_eq_iff request.operation_id j).0 e) free));
  }

module _ {T : Type 0} (json : JsonText T) where
  pub read-none :
      (id : String) (rows : Journal T) → read json id rows ≡ ok none → row_at id rows ≡ none
  unfolding read read_found
  read-none id rows h = ground arith

  prepare_existing-Evolves :
      (request : OperationRequest) (found : Result Thrown (Option OperationRecord))
      (rows : Journal T)
      → (found ≡ ok none → row_at request.operation_id rows ≡ none)
      → Evolves rows (prepare_existing json request found rows).1
  unfolding prepare_existing
  prepare_existing-Evolves request (err e) rows free = Evolves-refl rows
  prepare_existing-Evolves request (ok none) rows free = insert_row-Evolves request rows (free refl)
  prepare_existing-Evolves request (ok (some existing)) rows free = Evolves-refl rows

  pub prepare-Evolves :
      (request : OperationRequest) (rows : Journal T) → Evolves rows (prepare json request rows).1
  unfolding prepare
  prepare-Evolves request rows =
      transaction_keeps (Evolves rows)
        (λ now. prepare_existing json request (read json request.operation_id now) now) rows
        (Evolves-refl rows)
        (prepare_existing-Evolves request (read json request.operation_id rows) rows
          (read-none request.operation_id rows))

  mark_committed-Evolves :
      (id : String) (result : Value) (rows : Journal T)
      → Evolves rows (mark_committed json id result rows).1
  unfolding mark_committed
  mark_committed-Evolves id result rows =
      transition-Evolves id running (not_committable id)
        (λ row. record row {
          state = committed;
          result_json = some (json.stringify result);
          error_json = none;
          version = row.version + 1;
        })
        rows (λ r. refl) (λ r h. ground arith)

  mark_failed-Evolves :
      (id : String) (error : SerializedOperationError) (rows : Journal T)
      → Evolves rows (mark_failed json id error rows).1
  unfolding mark_failed
  mark_failed-Evolves id error rows =
      transition-Evolves id running (not_failable id)
        (λ row. record row {
          state = failed;
          result_json = none;
          error_json = some (json.stringify (error_value error));
          version = row.version + 1;
        })
        rows (λ r. refl) (λ r h. ground arith)

  pub start_running-state :
      (id : String) (p : Result Thrown (Unit {0}) × Journal T) → (start_running json id p).1 ≡ p.1
  unfolding start_running
  start_running-state id (ok _, rows) = refl
  start_running-state id (err e, rows) = refl

  begin_prepared-Evolves :
      (request : OperationRequest) (rows : Journal T) (p : Result Thrown PrepareOutcome × Journal T)
      → Evolves rows p.1
      → Evolves rows (begin_prepared json request p).1
  unfolding begin_prepared
  begin_prepared-Evolves request rows (err e, now) h = h
  begin_prepared-Evolves request rows (ok (in_progress state), now) h = h
  begin_prepared-Evolves request rows (ok reconcile_required, now) h = h
  begin_prepared-Evolves request rows (ok (replay found), now) h = h
  begin_prepared-Evolves request rows (ok PrepareOutcome.execute, now) h =
      rw (start_running-state request.operation_id (mark_running request.operation_id now))
        (Evolves-trans rows now _ h (mark_running-Evolves request.operation_id now))

  pub begin-Evolves :
      (request : OperationRequest) (rows : Journal T) → Evolves rows (begin json request rows).1
  unfolding begin
  begin-Evolves request rows =
      begin_prepared-Evolves request rows (prepare json request rows) (prepare-Evolves request rows)

  pub rethrow-state :
      (e : Thrown) (p : Result Thrown (Unit {0}) × Journal T) → (rethrow json e p).1 ≡ p.1
  unfolding rethrow
  rethrow-state e (ok _, rows) = refl
  rethrow-state e (err _, rows) = refl

  fail_with-Evolves :
      (id : String) (e : Thrown) (rows : Journal T) → Evolves rows (fail_with json id e rows).1
  unfolding fail_with
  fail_with-Evolves id e rows =
      rw (rethrow-state e (mark_failed json id (serialize_error e) rows))
        (mark_failed-Evolves id (serialize_error e) rows)

  after_commit-Evolves :
      (id : String) (result : Value) (rows : Journal T) (p : Result Thrown (Unit {0}) × Journal T)
      → Evolves rows p.1
      → Evolves rows (after_commit json id result p).1
  unfolding after_commit
  after_commit-Evolves id result rows (ok _, now) h = h
  after_commit-Evolves id result rows (err e, now) h =
      Evolves-trans rows now _ h (fail_with-Evolves id e now)

  commit_result-Evolves :
      (id : String) (envelope : Result Thrown Value) (rows : Journal T)
      → Evolves rows (commit_result json id envelope rows).1
  unfolding commit_result
  commit_result-Evolves id (err e) rows = fail_with-Evolves id e rows
  commit_result-Evolves id (ok envelope) rows =
      after_commit-Evolves id (result_of envelope) rows
        (mark_committed json id (result_of envelope) rows)
        (mark_committed-Evolves id (result_of envelope) rows)

  pub settle-Evolves :
      (id : String) (outcome : Effect) (rows : Journal T)
      → Evolves rows (settle json id outcome rows).1
  unfolding settle
  settle-Evolves id (threw e) rows = fail_with-Evolves id e rows
  settle-Evolves id (returned v) rows =
      commit_result-Evolves id (parse_result_envelope json.schemas.check (success_envelope v)) rows
