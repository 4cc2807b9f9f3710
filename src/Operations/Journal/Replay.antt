-- ===== src/Operations/Journal/Replay.antt =====
-- What `execute` answers for an id that has a row.

use benchhand.Prelude.{
  Bool, true, false, ◌&&◌, Option, none, some, ◌≡◌, ◌≢◌, refl, arith, str_eq, str_eq_iff, ok, err,
  ◌⊎◌,
}
use benchhand.Contracts.Value.{Value}
use benchhand.Contracts.Schema.{
  OperationState, accepted, running, committed, failed, unknown_needs_reconcile, rolled_back,
}
use benchhand.Storage.Table.{transaction_pure}
use benchhand.Operations.Record.{
  JsonText, OperationRequest, OperationRecord, SerializedOperationError, OperationExecutionOutcome,
  replayed_committed, replayed_failed, replayed_rolled_back, still_in_progress, needs_reconcile,
}
use benchhand.Operations.Journal.{
  Journal, conflict_error, classify, prepare, prepare_existing, read, answer, answer_record, begin,
  begin_prepared,
}

-- Same id, kind and fingerprint.
abbrev same_input : OperationRequest → OperationRecord → Bool
same_input request found =
    str_eq found.kind request.kind && str_eq found.fingerprint request.fingerprint

-- The answer that an id's record determines.
abbrev pub known_answer :
    OperationState
    → Option Value
    → Option SerializedOperationError
    → Option OperationExecutionOutcome
known_answer accepted result error = some (still_in_progress accepted)
known_answer running result error = some (still_in_progress running)
known_answer unknown_needs_reconcile result error = some needs_reconcile
known_answer rolled_back result error = some replayed_rolled_back
known_answer committed (some v) error = some (replayed_committed v)
known_answer committed none error = none
known_answer failed result (some e) = some (replayed_failed e)
known_answer failed result none = none

module _ {T : Type 0} (json : JsonText T) where
  prepare_known :
      (request : OperationRequest) (rows : Journal T) (found : OperationRecord)
      → read json request.operation_id rows ≡ ok (some found)
      → prepare json request rows ≡ (classify request found, rows)
  unfolding prepare
  prepare_known request rows found h =
      transaction_pure
        (λ now. prepare_existing json request (read json request.operation_id now) now) rows
        (classify request found) (rw h (unfold prepare_existing in refl))

  classified :
      (request : OperationRequest) (rows : Journal T) (found : OperationRecord)
      (outcome : OperationExecutionOutcome)
      → same_input request found ≡ true
      → known_answer found.state found.result found.error ≡ some outcome
      → begin_prepared json request (classify request found, rows) ≡ (ok (answer outcome), rows)
  unfolding begin_prepared classify answer_record
  classified request rows found outcome same h = ground arith

  -- A call for an id that has a record of the same input answers from the record, whatever its
  -- state, and changes no row; it does not start the effect.
  pub begin_known :
      (request : OperationRequest) (rows : Journal T) (found : OperationRecord)
      (outcome : OperationExecutionOutcome)
      → read json request.operation_id rows ≡ ok (some found)
      → found.kind ≡ request.kind
      → found.fingerprint ≡ request.fingerprint
      → known_answer found.state found.result found.error ≡ some outcome
      → begin json request rows ≡ (ok (answer outcome), rows)
  unfolding begin
  begin_known request rows found outcome h kind fingerprint known =
      rw (prepare_known request rows found h) (
        classified request rows found outcome
          (ground (
            arith,
            (str_eq_iff found.kind request.kind).1 kind,
            (str_eq_iff found.fingerprint request.fingerprint).1 fingerprint,
          ))
          known)

  conflicted :
      (request : OperationRequest) (rows : Journal T) (found : OperationRecord)
      → same_input request found ≡ false
      → begin_prepared json request (classify request found, rows)
        ≡ (err (conflict_error request.operation_id), rows)
  unfolding begin_prepared classify
  conflicted request rows found differs = ground arith

  -- A call for an id that has a record of another kind or another fingerprint throws the conflict
  -- error in every state of the record, and changes no row.
  pub begin_conflict :
      (request : OperationRequest) (rows : Journal T) (found : OperationRecord)
      → read json request.operation_id rows ≡ ok (some found)
      → (found.kind ≢ request.kind) ⊎ (found.fingerprint ≢ request.fingerprint)
      → begin json request rows ≡ (err (conflict_error request.operation_id), rows)
  unfolding begin
  begin_conflict request rows found h differs = rw (prepare_known request rows found h) (
      conflicted request rows found (
        ground (
          arith,
          str_eq_iff found.kind request.kind,
          str_eq_iff found.fingerprint request.fingerprint,
        )))
