-- ===== src/Operations/Record.antt =====
-- The types of packages/operations/src/index.ts, and the reading of a row of `operation_journal`.
-- The columns `created_at` and `updated_at` are left out: no code reads them.
pub mod Reading
use benchhand.Prelude.{
  ℕ, String, Bool, true, false, Option, none, some, List, ◌≡◌, if◌then◌else◌, str_eq, Result, ok,
  err, ◌>>=◌, ◌>>◌,
}
use benchhand.Contracts.Value.{Value, Fields, null, str, obj, end, field, get_field, is_json_value}
use benchhand.Contracts.Check.{SchemaCheck}
use benchhand.Contracts.Schema.{
  OperationState, Thrown, error_object, thrown_value, parse_entity_id, parse_result_envelope,
  success_envelope, result_of,
}

-- `JSON.stringify` and `JSON.parse`, over texts of a type `T`. Parsing gives back every JSON value
-- that was printed.
pub record JsonText (T : Type 0) : Type 0 where
  pub schemas : SchemaCheck
  pub stringify : Value → T
  pub parse : T → Result Thrown Value
  pub parse-stringify : (v : Value) → is_json_value v ≡ true → parse (stringify v) ≡ ok v

pub record OperationRequest : Type 0 where
  pub operation_id : String
  pub kind : String
  pub fingerprint : String

pub record SerializedOperationError : Type 0 where
  pub name : String
  pub message : String

pub record OperationRecord : Type 0 where
  pub operation_id : String
  pub kind : String
  pub fingerprint : String
  pub state : OperationState
  pub version : ℕ
  pub result : Option Value
  pub error : Option SerializedOperationError

-- A row of the table; its CHECK constraint keeps the six states and a version of at least 0.
pub record OperationRow (T : Type 0) : Type 0 where
  pub operation_id : String
  pub kind : String
  pub fingerprint : String
  pub state : OperationState
  pub result_json : Option T
  pub error_json : Option T
  pub version : ℕ

pub data PrepareOutcome : Type 0 where
  execute : PrepareOutcome
  replay : OperationRecord → PrepareOutcome
  in_progress : OperationState → PrepareOutcome
  reconcile_required : PrepareOutcome

pub data OperationExecutionOutcome : Type 0 where
  executed replayed_committed : Value → OperationExecutionOutcome
  replayed_failed : SerializedOperationError → OperationExecutionOutcome
  replayed_rolled_back : OperationExecutionOutcome
  still_in_progress : OperationState → OperationExecutionOutcome
  needs_reconcile : OperationExecutionOutcome

-- `{ name, message }` as a value
abbrev pub error_value : SerializedOperationError → Value
error_value e = obj true (field "name" (str e.name) (field "message" (str e.message) end))

unfoldable pub serialize_error : Thrown → SerializedOperationError
serialize_error (error_object name message) = record { name = name; message = message }
serialize_error (thrown_value text) = record { name = "Error"; message = text }

abbrev invalid_error_data : Thrown
invalid_error_data = error_object "Error" "operation journal contains invalid serialized error data"

error_fields : Option Value → Option Value → Result Thrown SerializedOperationError
error_fields (some (str name)) (some (str message)) = ok (record { name = name; message = message })
error_fields _ _ = err invalid_error_data

error_of_value : Value → Result Thrown SerializedOperationError
unfolding error_fields get_field
error_of_value (obj plain fields) =
    error_fields (get_field "name" fields) (get_field "message" fields)
error_of_value _ = err invalid_error_data

module _ {T : Type 0} (json : JsonText T) where
  unfoldable pub parse_serialized_error : T → Result Thrown SerializedOperationError
  unfolding error_of_value
  parse_serialized_error encoded = do value ← json.parse encoded; error_of_value value

  -- The JSON text of a result, as a value that the result envelope accepts.
  parse_result : T → Result Thrown Value
  unfolding parse_result_envelope result_of
  parse_result encoded = do
    value ← json.parse encoded
    envelope ← parse_result_envelope json.schemas.check (success_envelope value)
    ok (result_of envelope)

  read_result : Option T → Result Thrown (Option Value)
  unfolding parse_result
  read_result none = ok none
  read_result (some encoded) = do result ← parse_result encoded; ok (some result)

  read_error : Option T → Result Thrown (Option SerializedOperationError)
  unfolding parse_serialized_error
  read_error none = ok none
  read_error (some encoded) = do error ← parse_serialized_error encoded; ok (some error)

  unfoldable pub record_of_row : OperationRow T → Result Thrown OperationRecord
  unfolding read_result read_error parse_entity_id
  record_of_row row = do
    operation_id ← parse_entity_id "operation" row.operation_id
    result ← read_result row.result_json
    error ← read_error row.error_json
    ok (record {
      operation_id = operation_id;
      kind = row.kind;
      fingerprint = row.fingerprint;
      state = row.state;
      version = row.version;
      result = result;
      error = error;
    })
