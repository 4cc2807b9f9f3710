-- ===== src/Operations/Journal/Tests.antt =====
-- Runs of the journal, with JSON texts that are the values themselves.
use benchhand.Prelude.{
  ◌≤◌, true, false, none, some, List, [], ◌∷◌, ◌≡◌, ◌≢◌, ap, arith, inr, refl, str_eq, ok, err,
}
use benchhand.Contracts.Value.{Value, bool, str, is_json_value}
use benchhand.Contracts.Check.{SchemaCheck}
use benchhand.Contracts.Schema.{
  error_object, running, committed, parse_result_envelope, success_envelope,
}
use benchhand.Storage.Table.{count_where}
use benchhand.Operations.Record.{
  JsonText, OperationRow, OperationRecord, OperationRequest, executed, replayed_committed,
  still_in_progress, error_value, parse_serialized_error,
}
use benchhand.Operations.Record.Reading.{parse_success_envelope, parse_serialized_error-stringify}
use benchhand.Operations.Journal.{
  Journal, Effect, returned, threw, answer, begin, execute, read, conflict_error, new_row,
  not_accepted, transition,
}
use benchhand.Operations.Journal.Rows.{IsKeyed, transition-result}
use benchhand.Operations.Journal.Steps.{Evolves, Evolves-refl}
use benchhand.Operations.Journal.Traces.{
  Event, call, finish, restart, run, effects_started, effects_started-le-one, run-Evolves,
}
use benchhand.Operations.Journal.Sound.{IsSound, run-IsSound}
use benchhand.Operations.Journal.Replay.{begin_known, begin_conflict}
use benchhand.Operations.Journal.Once.{execute_replays}

bool_apart : true ≢ false
bool_apart h = cc

abbrev every_value : SchemaCheck
every_value = record {
  check = λ _ _. true;
  accepts_unknown = λ v. refl;
  accepts_literal = λ b. refl;
  accepts_object = λ properties fields fits listed. refl;
}

abbrev value_text : JsonText Value
value_text = record {
  schemas = every_value;
  stringify = λ v. v;
  parse = λ v. ok v;
  parse-stringify = λ v h. refl;
}

abbrev open_request : OperationRequest
open_request = record { operation_id = "op-1"; kind = "workspace.open"; fingerprint = "f" }

abbrev other_request : OperationRequest
other_request = record { operation_id = "op-1"; kind = "workspace.open"; fingerprint = "g" }

abbrev started_row : OperationRow Value
started_row = record (new_row open_request) { state = running; version = 1 }

abbrev started_record : OperationRecord
started_record = record {
  operation_id = "op-1";
  kind = "workspace.open";
  fingerprint = "f";
  state = running;
  version = 1;
  result = none;
  error = none;
}

abbrev two_calls : List Event
two_calls =
    call open_request ∷ call open_request ∷ restart ∷ finish "op-1" (returned (bool true)) ∷ []

no_rows-IsKeyed : IsKeyed {T = Value} []
unfolding count_where
no_rows-IsKeyed = record { at_most_one = λ id. omega arith }

effects_started-le-one_example : effects_started value_text "op-1" two_calls [] ≤ 1
effects_started-le-one_example = effects_started-le-one value_text "op-1" two_calls []

run-Evolves_example : Evolves {T = Value} [] (run value_text two_calls [])
run-Evolves_example = run-Evolves value_text two_calls []

run-IsSound_example : IsSound value_text (run value_text two_calls [])
run-IsSound_example = run-IsSound value_text two_calls [] (refl, (refl, (tt, (tt, tt)))) tt

abbrev set_true : Journal Value → Effect × Journal Value
set_true rows = (returned (bool true), rows)

abbrev fails : Journal Value → Effect × Journal Value
fails rows = (threw (error_object "Error" "late"), rows)

abbrev rows_after : Journal Value
rows_after =
    record (new_row open_request) { state = committed; result_json = some (bool true); version = 2 }
    ∷ []

executes : execute value_text open_request set_true [] ≡ (ok (executed (bool true)), rows_after)
unfolding execute is_json_value
executes = refl

execute_replays_example :
    execute value_text open_request fails (run value_text two_calls rows_after)
    ≡ (ok (replayed_committed (bool true)), run value_text two_calls rows_after)
execute_replays_example =
    execute_replays value_text open_request set_true (bool true) [] rows_after two_calls fails refl
      no_rows-IsKeyed (λ now. Evolves-refl now) executes

reads_started : read value_text "op-1" (started_row ∷ []) ≡ ok (some started_record)
unfolding read
reads_started = refl

begin_known_example :
    begin value_text open_request (started_row ∷ [])
    ≡ (ok (answer (still_in_progress running)), started_row ∷ [])
begin_known_example =
    begin_known value_text open_request (started_row ∷ []) started_record
      (still_in_progress running) reads_started refl refl refl

begin_conflict_example :
    begin value_text other_request (started_row ∷ [])
    ≡ (err (conflict_error "op-1"), started_row ∷ [])
begin_conflict_example =
    begin_conflict value_text other_request (started_row ∷ []) started_record reads_started
      (inr (λ same. bool_apart (ap (λ f. str_eq f "f") same)))

transition-result_example :
    (transition "op-1" running (not_accepted "op-1") (λ (row : OperationRow Value). row) []).0
    ≡ err (not_accepted "op-1")
transition-result_example =
    transition-result "op-1" running (not_accepted "op-1") (λ row. row) (λ r. refl) []
      no_rows-IsKeyed

parse_serialized_error-stringify_example :
    parse_serialized_error value_text (error_value (record { name = "TypeError"; message = "m" }))
    ≡ ok (record { name = "TypeError"; message = "m" })
parse_serialized_error-stringify_example =
    parse_serialized_error-stringify value_text (record { name = "TypeError"; message = "m" })

parse_success_envelope_example :
    parse_result_envelope every_value.check (success_envelope (str "v"))
    ≡ ok (success_envelope (str "v"))
unfolding is_json_value
parse_success_envelope_example = parse_success_envelope value_text (str "v")
