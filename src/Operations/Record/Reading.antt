-- ===== src/Operations/Record/Reading.antt =====
-- Reading back what was written: results and errors of a row.
use benchhand.Prelude.{
  true, false, Option, none, some, ◌≡◌, refl, arith, if◌then◌else◌, str_eq, ok, err,
}
use benchhand.Contracts.Value.{Value, is_json_value}
use benchhand.Contracts.Check.{accepts_envelope}
use benchhand.Contracts.Schema.{error_object, parse_result_envelope, success_envelope}
use benchhand.Operations.Record.{
  JsonText, OperationRow, OperationRecord, SerializedOperationError, error_value, record_of_row,
  parse_serialized_error, parse_result,
}

module _ {T : Type 0} (json : JsonText T) where
  -- The envelope `{ ok: true, result }` of a JSON result is accepted as it is by the schema of result
  -- envelopes, and that of any other value is refused.
  pub parse_success_envelope :
      (v : Value)
      → parse_result_envelope json.schemas.check (success_envelope v) ≡ (
          if is_json_value v
          then ok (success_envelope v)
          else err (error_object "TypeError" "invalid result envelope"))
  unfolding parse_result_envelope is_json_value
  parse_success_envelope v = ground (arith, accepts_envelope json.schemas v)

  parse_result-stringify :
      (v : Value) → is_json_value v ≡ true → parse_result json (json.stringify v) ≡ ok v
  unfolding parse_result
  parse_result-stringify v good = rw (json.parse-stringify v good, parse_success_envelope v, good)

  -- An error that was written as JSON is read back with its name and its message.
  pub parse_serialized_error-stringify :
      (e : SerializedOperationError)
      → parse_serialized_error json (json.stringify (error_value e)) ≡ ok e
  unfolding parse_serialized_error is_json_value
  parse_serialized_error-stringify e = rw (json.parse-stringify (error_value e) refl)

  abbrev pub record_with :
      OperationRow T → Option Value → Option SerializedOperationError → OperationRecord
  record_with row result error = record {
    operation_id = row.operation_id;
    kind = row.kind;
    fingerprint = row.fingerprint;
    state = row.state;
    version = row.version;
    result = result;
    error = error;
  }

  module _ (row : OperationRow T) (named : str_eq row.operation_id "" ≡ false) where
    pub record_of_committed :
        (v : Value)
        → is_json_value v ≡ true
        → row.result_json ≡ some (json.stringify v)
        → row.error_json ≡ none
        → record_of_row json row ≡ ok (record_with row (some v) none)
    unfolding record_of_row
    record_of_committed v good r e = ground (arith, parse_result-stringify v good)

    pub record_of_failed :
        (x : SerializedOperationError)
        → row.result_json ≡ none
        → row.error_json ≡ some (json.stringify (error_value x))
        → record_of_row json row ≡ ok (record_with row none (some x))
    unfolding record_of_row
    record_of_failed x r e = ground (arith, parse_serialized_error-stringify x)

    pub record_of_open :
        row.result_json ≡ none
        → row.error_json ≡ none
        → record_of_row json row ≡ ok (record_with row none none)
    unfolding record_of_row
    record_of_open r e = ground arith
