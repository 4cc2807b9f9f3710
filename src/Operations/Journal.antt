-- ===== src/Operations/Journal.antt =====
-- The class `OperationJournal` of packages/operations/src/index.ts. Its state is the table
-- `operation_journal`; a method is a function of the rows.
pub mod Rows
pub mod Steps
pub mod Calls
pub mod Traces
pub mod Sound
pub mod Replay
pub mod Once
pub mod Tests
use Prim.Native.String
use benchhand.Prelude.{
  ℕ, suc, ◌+◌, String, Bool, true, false, ◌&&◌, ◌||◌, not, Option, none, some, List, [], ◌∷◌, ◌++◌,
  if◌then◌else◌, ◌==◌, str_eq, find, Result, ok, err, ◌>>=◌, Exec,
}
use benchhand.Contracts.Value.{Value}
use benchhand.Contracts.Schema.{
  OperationState, accepted, running, committed, failed, unknown_needs_reconcile, rolled_back,
  Thrown, error_object, parse_result_envelope, success_envelope, result_of,
}
use benchhand.Storage.Table.{update_where, count_where, transaction}
use benchhand.Operations.Record.{
  JsonText, OperationRequest, SerializedOperationError, OperationRecord, OperationRow,
  PrepareOutcome, replay, in_progress, reconcile_required, OperationExecutionOutcome, executed,
  replayed_committed, replayed_failed, replayed_rolled_back, still_in_progress, needs_reconcile,
  error_value, serialize_error, record_of_row,
}

abbrev pub Journal : Type 0 → Type 0
Journal T = List (OperationRow T)

abbrev pub has_id : {T : Type 0} → String → OperationRow T → Bool
has_id operation_id row = str_eq row.operation_id operation_id

abbrev pub same_state : OperationState → OperationState → Bool
same_state accepted accepted = true
same_state running running = true
same_state committed committed = true
same_state failed failed = true
same_state unknown_needs_reconcile unknown_needs_reconcile = true
same_state rolled_back rolled_back = true
same_state _ _ = false

-- The message with the operation's id between two pieces.
abbrev about : String → String → String → String
about before operation_id after = String.◌++◌ before (String.◌++◌ operation_id after)

abbrev pub conflict_error : String → Thrown
conflict_error operation_id =
    error_object "OperationConflictError"
      (about "operation id " operation_id " is already bound to different input")

abbrev pub not_accepted : String → Thrown
not_accepted operation_id =
    error_object "Error" (about "operation " operation_id " is not in accepted state")

abbrev pub not_committable : String → Thrown
not_committable operation_id =
    error_object "Error" (about "operation " operation_id " could not be committed")

abbrev pub not_failable : String → Thrown
not_failable operation_id =
    error_object "Error" (about "operation " operation_id " could not be marked failed")

-- `state IN ('accepted', 'running')`
abbrev pub is_interrupted : {T : Type 0} → OperationRow T → Bool
is_interrupted row = same_state row.state accepted || same_state row.state running

-- What an effect does: it returns a value or throws.
pub data Effect : Type 0 where
  returned : Value → Effect
  threw : Thrown → Effect

-- The answer to a request whose id has a record.
unfoldable pub classify : OperationRequest → OperationRecord → Result Thrown PrepareOutcome
classify request existing =
    if not (str_eq existing.kind request.kind)
      || not (str_eq existing.fingerprint request.fingerprint)
    then err (conflict_error request.operation_id)
    else elim existing.state [
      | committed ↦ ok (replay existing)
      | failed ↦ ok (replay existing)
      | rolled_back ↦ ok (replay existing)
      | unknown_needs_reconcile ↦ ok reconcile_required
      | accepted ↦ ok (in_progress accepted)
      | running ↦ ok (in_progress running)
    ]

-- `execute` up to the effect: run the effect, or answer at once.
pub data Decision : Type 0 where
  run_effect : Decision
  answer : OperationExecutionOutcome → Decision

module _ {T : Type 0} where
  -- UPDATE … WHERE operation_id = ? AND state = ?, with the error when not one row changed
  pub transition :
      String
      → OperationState
      → Thrown
      → (OperationRow T → OperationRow T)
      → Exec (Journal T) Thrown (Unit {0})
  unfolding update_where count_where
  transition operation_id from error change rows =
      let hit = λ (row : OperationRow T). has_id operation_id row && same_state row.state from in
      ((if count_where hit rows == 1 then ok tt else err error), update_where hit change rows)

  unfoldable pub mark_running : String → Exec (Journal T) Thrown (Unit {0})
  unfolding transition
  mark_running operation_id =
      transition operation_id accepted (not_accepted operation_id)
        (λ row. record row { state = running; version = row.version + 1 })

  -- The rows and the number of rows changed.
  unfoldable pub reconcile_interrupted : Journal T → ℕ × Journal T
  unfolding update_where count_where
  reconcile_interrupted rows = (
    count_where is_interrupted rows,
    update_where is_interrupted
        (λ row. record row { state = unknown_needs_reconcile; version = row.version + 1 }) rows,
  )

  abbrev pub new_row : OperationRequest → OperationRow T
  new_row request = record {
    operation_id = request.operation_id;
    kind = request.kind;
    fingerprint = request.fingerprint;
    state = accepted;
    result_json = none;
    error_json = none;
    version = 0;
  }

  -- INSERT; the primary key refuses a second row of the same id.
  insert_found :
      OperationRequest
      → Journal T
      → Option (OperationRow T)
      → Result Thrown PrepareOutcome × Journal T
  insert_found request rows none = (ok PrepareOutcome.execute, rows ++ new_row request ∷ [])
  insert_found request rows (some row) = (
    err (error_object "SqliteError" "UNIQUE constraint failed: operation_journal.operation_id"),
    rows,
  )

  pub insert_row : OperationRequest → Exec (Journal T) Thrown PrepareOutcome
  unfolding insert_found
  insert_row request rows = insert_found request rows (find (has_id request.operation_id) rows)

module _ {T : Type 0} (json : JsonText T) where
  read_found : Option (OperationRow T) → Result Thrown (Option OperationRecord)
  unfolding record_of_row
  read_found none = ok none
  read_found (some row) = do found ← record_of_row json row; ok (some found)

  unfoldable pub read : String → Journal T → Result Thrown (Option OperationRecord)
  unfolding read_found
  read operation_id rows = read_found (find (has_id operation_id) rows)

  unfoldable pub get : String → Journal T → Result Thrown (Option OperationRecord)
  unfolding read
  get operation_id rows = read operation_id rows

  prepare_existing :
      OperationRequest
      → Result Thrown (Option OperationRecord)
      → Exec (Journal T) Thrown PrepareOutcome
  unfolding insert_row classify
  prepare_existing request (err e) rows = (err e, rows)
  prepare_existing request (ok (some existing)) rows = (classify request existing, rows)
  prepare_existing request (ok none) rows = insert_row request rows

  unfoldable pub prepare : OperationRequest → Exec (Journal T) Thrown PrepareOutcome
  unfolding prepare_existing read transaction
  prepare request =
      transaction (λ rows. prepare_existing request (read request.operation_id rows) rows)

  unfoldable pub mark_committed : String → Value → Exec (Journal T) Thrown (Unit {0})
  unfolding transition
  mark_committed operation_id result =
      transition operation_id running (not_committable operation_id) (λ row. record row {
        state = committed;
        result_json = some (json.stringify result);
        error_json = none;
        version = row.version + 1;
      })

  unfoldable pub mark_failed :
      String → SerializedOperationError → Exec (Journal T) Thrown (Unit {0})
  unfolding transition
  mark_failed operation_id error =
      transition operation_id running (not_failable operation_id) (λ row. record row {
        state = failed;
        result_json = none;
        error_json = some (json.stringify (error_value error));
        version = row.version + 1;
      })

  answer_record : String → OperationRecord → Result Thrown Decision
  answer_record operation_id found = elim found.state [
    | committed ↦ elim found.result [
      | none ↦
          err (error_object "Error" (about "committed operation " operation_id " has no result"))
      | some result ↦ ok (answer (replayed_committed result))
    ]
    | failed ↦ elim found.error [
      | none ↦ err (error_object "Error" (about "failed operation " operation_id " has no error"))
      | some error ↦ ok (answer (replayed_failed error))
    ]
    | _ ↦ ok (answer replayed_rolled_back)
  ]

  pub start_running :
      String → Result Thrown (Unit {0}) × Journal T → Result Thrown Decision × Journal T
  start_running operation_id (ok _, rows) = (ok run_effect, rows)
  start_running operation_id (err e, rows) = (err e, rows)

  begin_prepared :
      OperationRequest
      → Result Thrown PrepareOutcome × Journal T
      → Result Thrown Decision × Journal T
  unfolding answer_record start_running mark_running
  begin_prepared request (err e, rows) = (err e, rows)
  begin_prepared request (ok (in_progress state), rows) =
      (ok (answer (still_in_progress state)), rows)
  begin_prepared request (ok reconcile_required, rows) = (ok (answer needs_reconcile), rows)
  begin_prepared request (ok (replay found), rows) =
      (answer_record request.operation_id found, rows)
  begin_prepared request (ok PrepareOutcome.execute, rows) =
      start_running request.operation_id (mark_running request.operation_id rows)

  unfoldable pub begin : OperationRequest → Exec (Journal T) Thrown Decision
  unfolding begin_prepared prepare
  begin request rows = begin_prepared request (prepare request rows)

  -- The `catch` of `execute`: mark the operation failed and throw the error again.
  pub rethrow :
      Thrown
      → Result Thrown (Unit {0}) × Journal T
      → Result Thrown OperationExecutionOutcome × Journal T
  rethrow e (ok _, rows) = (err e, rows)
  rethrow e (err e', rows) = (err e', rows)

  fail_with : String → Thrown → Exec (Journal T) Thrown OperationExecutionOutcome
  unfolding rethrow mark_failed serialize_error
  fail_with operation_id e rows = rethrow e (mark_failed operation_id (serialize_error e) rows)

  after_commit :
      String
      → Value
      → Result Thrown (Unit {0}) × Journal T
      → Result Thrown OperationExecutionOutcome × Journal T
  unfolding fail_with
  after_commit operation_id result (ok _, rows) = (ok (executed result), rows)
  after_commit operation_id result (err e, rows) = fail_with operation_id e rows

  commit_result : String → Result Thrown Value → Exec (Journal T) Thrown OperationExecutionOutcome
  unfolding after_commit mark_committed
  commit_result operation_id (err e) rows = fail_with operation_id e rows
  commit_result operation_id (ok envelope) rows =
      let result = result_of envelope in
      after_commit operation_id result (mark_committed operation_id result rows)

  -- `execute` from the effect's end
  unfoldable pub settle : String → Effect → Exec (Journal T) Thrown OperationExecutionOutcome
  unfolding commit_result parse_result_envelope
  settle operation_id (threw e) rows = fail_with operation_id e rows
  settle operation_id (returned v) rows =
      commit_result operation_id (parse_result_envelope json.schemas.check (success_envelope v))
        rows

  settle_after : String → Effect × Journal T → Result Thrown OperationExecutionOutcome × Journal T
  unfolding settle
  settle_after operation_id (outcome, rows) = settle operation_id outcome rows

  run_decision :
      OperationRequest
      → (Journal T → Effect × Journal T)
      → Result Thrown Decision × Journal T
      → Result Thrown OperationExecutionOutcome × Journal T
  unfolding settle_after
  run_decision request effect (err e, rows) = (err e, rows)
  run_decision request effect (ok (answer outcome), rows) = (ok outcome, rows)
  run_decision request effect (ok run_effect, rows) =
      settle_after request.operation_id (effect rows)

  -- The effect sees the journal, since other calls may change it until the effect ends.
  unfoldable pub execute :
      OperationRequest
      → (Journal T → Effect × Journal T)
      → Exec (Journal T) Thrown OperationExecutionOutcome
  unfolding run_decision begin
  execute request effect rows = run_decision request effect (begin request rows)
