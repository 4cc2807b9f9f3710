-- ===== src/Operations/Journal/Sound.antt =====
-- What the columns of a row hold in each state.

use benchhand.Prelude.{
  ◌+◌, String, Bool, true, false, ◌&&◌, ◌||◌, Option, none, some, List, [], ◌∷◌, ◌≡◌, refl, arith,
  if◌then◌else◌, str_eq, Result, ok, err, All, All-append, find,
}
use benchhand.Contracts.Value.{Value, is_json_value}
use benchhand.Contracts.Schema.{
  OperationState, accepted, running, committed, failed, unknown_needs_reconcile, rolled_back,
  Thrown, error_object, success_envelope, result_of,
}
use benchhand.Storage.Table.{transaction_keeps, All-update_where}
use benchhand.Operations.Record.{
  JsonText, OperationRow, OperationRequest, OperationRecord, SerializedOperationError,
  PrepareOutcome, replay, in_progress, reconcile_required, error_value, serialize_error,
}
use benchhand.Operations.Journal.{
  Journal, has_id, same_state, is_interrupted, insert_found, not_accepted, not_committable,
  not_failable, mark_running, mark_committed, mark_failed, new_row, reconcile_interrupted, prepare,
  prepare_existing, insert_row, read, Effect, returned, threw, begin, begin_prepared, settle,
  fail_with, commit_result, after_commit, transition,
}
use benchhand.Operations.Record.Reading.{parse_success_envelope}
use benchhand.Operations.Journal.Calls.{start_running-state, rethrow-state}
use benchhand.Operations.Journal.Traces.{Event, call, finish, restart, step, run}

module _ {T : Type 0} (json : JsonText T) where
  abbrev pub Payload : OperationState → Option T → Option T → Type 0
  Payload committed result error =
      (v : Value) × (is_json_value v ≡ true) × (result ≡ some (json.stringify v)) × (error ≡ none)
  Payload failed result error =
      (e : SerializedOperationError) × (result ≡ none)
      × (error ≡ some (json.stringify (error_value e)))
  Payload rolled_back result error = ⊥
  Payload _ result error = (result ≡ none) × (error ≡ none)

  pub record IsSoundRow (row : OperationRow T) : Type 0 where
    pub named : str_eq row.operation_id "" ≡ false
    pub payload : Payload row.state row.result_json row.error_json

  abbrev pub IsSound : Journal T → Type 0
  IsSound rows = All IsSoundRow rows

  transition-IsSound :
      (id : String) (from : OperationState) (e : Thrown) (change : OperationRow T → OperationRow T)
      (rows : Journal T)
      → ((r : OperationRow T)
          → same_state r.state from ≡ true
          → IsSoundRow r
          → IsSoundRow (change r))
      → IsSound rows
      → IsSound (transition id from e change rows).1
  unfolding transition
  transition-IsSound id from e change rows step h =
      All-update_where IsSoundRow (λ row. has_id id row && same_state row.state from) change rows
        (λ r hit k. step r (ground arith) k) h

  mark_running-IsSound :
      (id : String) (rows : Journal T) → IsSound rows → IsSound (mark_running id rows).1
  unfolding mark_running
  mark_running-IsSound id rows =
      transition-IsSound id accepted (not_accepted id)
        (λ row. record row { state = running; version = row.version + 1 }) rows
        (λ r at k. record { named = k.named; payload = started r.state _ _ at k.payload })
    where
      started :
          (s : OperationState) (a b : Option T)
          → same_state s accepted ≡ true
          → Payload s a b
          → Payload running a b
      started accepted a b at p = p
      started _ a b at p = cc at

  reconciled_lem :
      (s : OperationState) (a b : Option T)
      → (same_state s accepted || same_state s running) ≡ true
      → Payload s a b
      → Payload unknown_needs_reconcile a b
  reconciled_lem accepted a b at p = p
  reconciled_lem running a b at p = p
  reconciled_lem _ a b at p = cc at

  reconcile_interrupted-IsSound :
      (rows : Journal T) → IsSound rows → IsSound (reconcile_interrupted rows).1
  unfolding reconcile_interrupted
  reconcile_interrupted-IsSound rows =
      All-update_where IsSoundRow is_interrupted
        (λ row. record row { state = unknown_needs_reconcile; version = row.version + 1 }) rows
        (λ r at k. record { named = k.named; payload = reconciled_lem r.state _ _ at k.payload })

  insert_row-IsSound :
      (request : OperationRequest) (rows : Journal T)
      → str_eq request.operation_id "" ≡ false
      → IsSound rows
      → IsSound (insert_row request rows).1
  unfolding insert_row
  insert_row-IsSound request rows named h = go (find (has_id request.operation_id) rows)
    where
      go : (o : Option (OperationRow T)) → IsSound (insert_found request rows o).1
      go none =
          All-append IsSoundRow rows (new_row request ∷ []) h
            (record { named = named; payload = (refl, refl) }, tt)
      go (some r) = h

  prepare_existing-IsSound :
      (request : OperationRequest) (found : Result Thrown (Option OperationRecord))
      (rows : Journal T)
      → str_eq request.operation_id "" ≡ false
      → IsSound rows
      → IsSound (prepare_existing json request found rows).1
  unfolding prepare_existing
  prepare_existing-IsSound request (err e) rows named h = h
  prepare_existing-IsSound request (ok none) rows named h = insert_row-IsSound request rows named h
  prepare_existing-IsSound request (ok (some existing)) rows named h = h

  begin_prepared-IsSound :
      (request : OperationRequest) (p : Result Thrown PrepareOutcome × Journal T)
      → IsSound p.1
      → IsSound (begin_prepared json request p).1
  unfolding begin_prepared
  begin_prepared-IsSound request (err e, now) h = h
  begin_prepared-IsSound request (ok (in_progress state), now) h = h
  begin_prepared-IsSound request (ok reconcile_required, now) h = h
  begin_prepared-IsSound request (ok (replay found), now) h = h
  begin_prepared-IsSound request (ok PrepareOutcome.execute, now) h =
      rw (start_running-state json request.operation_id (mark_running request.operation_id now))
        (mark_running-IsSound request.operation_id now h)

  begin-IsSound :
      (request : OperationRequest) (rows : Journal T)
      → str_eq request.operation_id "" ≡ false
      → IsSound rows
      → IsSound (begin json request rows).1
  unfolding begin prepare
  begin-IsSound request rows named h = begin_prepared-IsSound request _ (
      transaction_keeps IsSound
        (λ now. prepare_existing json request (read json request.operation_id now) now) rows h
        (prepare_existing-IsSound request (read json request.operation_id rows) rows named h))

  mark_failed-IsSound :
      (id : String) (error : SerializedOperationError) (rows : Journal T)
      → IsSound rows
      → IsSound (mark_failed json id error rows).1
  unfolding mark_failed
  mark_failed-IsSound id error rows =
      transition-IsSound id running (not_failable id)
        (λ row. record row {
          state = failed;
          result_json = none;
          error_json = some (json.stringify (error_value error));
          version = row.version + 1;
        })
        rows (λ r at k. record { named = k.named; payload = (error, refl, refl) })

  mark_committed-IsSound :
      (id : String) (v : Value) (rows : Journal T)
      → is_json_value v ≡ true
      → IsSound rows
      → IsSound (mark_committed json id v rows).1
  unfolding mark_committed
  mark_committed-IsSound id v rows good =
      transition-IsSound id running (not_committable id)
        (λ row. record row {
          state = committed;
          result_json = some (json.stringify v);
          error_json = none;
          version = row.version + 1;
        })
        rows (λ r at k. record { named = k.named; payload = (v, good, refl, refl) })

  fail_with-IsSound :
      (id : String) (e : Thrown) (rows : Journal T)
      → IsSound rows
      → IsSound (fail_with json id e rows).1
  unfolding fail_with
  fail_with-IsSound id e rows h =
      rw (rethrow-state json e (mark_failed json id (serialize_error e) rows))
        (mark_failed-IsSound id (serialize_error e) rows h)

  after_commit-IsSound :
      (id : String) (v : Value) (p : Result Thrown (Unit {0}) × Journal T)
      → IsSound p.1
      → IsSound (after_commit json id v p).1
  unfolding after_commit
  after_commit-IsSound id v (ok _, now) h = h
  after_commit-IsSound id v (err e, now) h = fail_with-IsSound id e now h

  settle-IsSound :
      (id : String) (outcome : Effect) (rows : Journal T)
      → IsSound rows
      → IsSound (settle json id outcome rows).1
  unfolding settle commit_result result_of
  settle-IsSound id (threw e) rows h = fail_with-IsSound id e rows h
  settle-IsSound id (returned v) rows h =
      rw (parse_success_envelope json v) (go (is_json_value v) refl)
    where
      go :
          (b : Bool)
          → is_json_value v ≡ b
          → IsSound
              (commit_result json id
                (if b
                  then ok (success_envelope v)
                  else err (error_object "TypeError" "invalid result envelope"))
                rows).1
      go true good =
          after_commit-IsSound id v (mark_committed json id v rows)
            (mark_committed-IsSound id v rows good h)
      go false bad = fail_with-IsSound id _ rows h

  -- Every request of the events has an id, as `parseEntityId` demands.
  abbrev pub HasId : Event → Type 0
  HasId (call request) = str_eq request.operation_id "" ≡ false
  HasId _ = Unit

  step-IsSound :
      (event : Event) (rows : Journal T)
      → HasId event
      → IsSound rows
      → IsSound (step json event rows)
  step-IsSound (call request) rows named h = begin-IsSound request rows named h
  step-IsSound (finish id outcome) rows _ h = settle-IsSound id outcome rows h
  step-IsSound restart rows _ h = reconcile_interrupted-IsSound rows h

  -- In every journal that calls with non-empty ids, ends of effects and restarts make from a sound
  -- one, a committed row holds the text of one JSON result and no error, a failed row the text of
  -- one error and no result, every other row neither, and no row is rolled back.
  pub run-IsSound :
      (events : List Event) (rows : Journal T)
      → All HasId events
      → IsSound rows
      → IsSound (run json events rows)
  unfolding run
  run-IsSound [] rows named h = h
  run-IsSound (event ∷ events) rows (n, named) h =
      run-IsSound events (step json event rows) named (step-IsSound event rows n h)
