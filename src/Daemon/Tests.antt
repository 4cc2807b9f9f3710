-- ===== src/Daemon/Tests.antt =====
-- A daemon whose journal and health check answer and whose other components refuse.
use benchhand.Prelude.{
  ℕ, String, true, false, ◌&&◌, none, some, [], ◌∷◌, ◌++◌, ◌≡◌, refl, arith, ◌⊎◌, Result, ok, err,
  str_eq, leb, length, map, ◌+◌, if◌then◌else◌,
}
use benchhand.Contracts.Value.{
  Number, Value, Fields, null, str, num, nat, bool, obj, field, end, property,
}
use benchhand.Contracts.Schema.{Schema, Thrown, error_object}
use benchhand.LocalRpc.{no_signal}
use benchhand.LocalRpc.Transport.{response_data, response_end, deliver_all, open_request}
use benchhand.Daemon.{Failure, other_failure}
use benchhand.Daemon.Body.{
  body_data, body_end, body_aborted, read_request_body, read_request_body_joined, concatenated,
  body_too_large, max_request_bytes,
}
use benchhand.Daemon.Dispatch.{Caught, uncoded, Components}
use benchhand.Daemon.Http.{HttpResponse, Surroundings, handle_http_request}
use benchhand.Daemon.Answers.{
  envelope_of, fresh_response, sent, Refused, Dispatched, handle_http_request_answers,
}
use benchhand.Daemon.Startup.{
  linux, probe_error, econnrefused, socket, free, Machine, StartDaemonOptions, start_daemon,
}
use benchhand.Daemon.Startup.Lifecycle.{AllOrNothing, start_daemon-AllOrNothing}
use benchhand.Daemon.RoundTrip.{call_answered, dispatched, outcome_of}

abbrev refuse : {A : Type 0} → ℕ → Result Caught A × ℕ
refuse s = (err (uncoded (other_failure (error_object "Error" "no component"))), s)

-- The state counts the health checks.
abbrev small_components : Components ℕ
small_components = record {
  instance_id = "daemon_1";
  is_ready = λ s. true;
  integrity_check = λ s. (ok (str "ok"), s + 1);
  journal_get = λ id s. (ok none, s);
  workspaces_open = λ params s. refuse s;
  workspaces_get = λ id s. refuse s;
  filesystem_read = λ params s. refuse s;
  filesystem_list = λ params s. refuse s;
  filesystem_search = λ params s. refuse s;
  filesystem_write = λ params s. refuse s;
  filesystem_patch = λ params s. refuse s;
  instructions_resolve = λ params s. refuse s;
  instructions_list_skills = λ id s. refuse s;
  instructions_read_skill = λ params s. refuse s;
}

abbrev health_request : Fields
health_request =
    field "requestId" (str "r1") (field "method" (str "system.health") (field "params" null end))

abbrev wire_request : Value
wire_request = obj true (
    field "requestId" (str "r1") (
      field "method" (str "system.health")
        (field "params" null (field "schemaVersion" (num (nat 1)) end))))

abbrev small_daemon : Surroundings ℕ
small_daemon = record {
  check = λ schema v. true;
  parse_json = λ body. ok wire_request;
  is_integer = λ k. false;
  print = λ n. "1";
  now = 7;
  components = small_components;
}

abbrev health_envelope : Value
health_envelope = obj true (
    field "schemaVersion" (num (nat 1)) (
      field "requestId" (str "r1") (
        field "ok" (bool true) (
          field "result"
            (obj true (
              field "live" (bool true) (
                field "ready" (bool true) (
                  field "state" (str "healthy") (
                    field "instanceId" (str "daemon_1") (
                      field "rpcSchemaVersion" (num (nat 1))
                        (field "storageIntegrity" (str "ok") end)))))))
            end))))

handled_test :
    handle_http_request small_daemon "POST" "/rpc" (ok (123 ∷ 125 ∷ [])) fresh_response 0
    ≡ (sent health_envelope, 1)
unfolding handle_http_request benchhand.Contracts.Value.is_json_value
handled_test = refl

handle_http_request_answers_example :
    ((id : String) × Refused small_daemon 0 fresh_response id
        (handle_http_request small_daemon "POST" "/rpc" (ok []) fresh_response 0))
    ⊎ (((str_eq "POST" "POST" && str_eq "/rpc" "/rpc") ≡ true)
        × Dispatched small_daemon 0 fresh_response
            (ok [])
            (handle_http_request small_daemon "POST" "/rpc" (ok []) fresh_response 0))
handle_http_request_answers_example =
    handle_http_request_answers small_daemon 0 fresh_response "POST" "/rpc" (ok [])

call_answered_example :
    (handle_http_request small_daemon "POST" "/rpc" (ok (123 ∷ 125 ∷ [])) fresh_response 0 ≡ (
      sent (envelope_of "r1" (dispatched small_daemon 0 wire_request).0),
      (dispatched small_daemon 0 wire_request).1,
    ))
    × ((deliver_all small_daemon.check
          (λ reply. ok health_envelope)
          (property "requestId" wire_request)
          (response_data (123 ∷ 125 ∷ []) ∷ response_end ∷ [])
          (open_request none 7 no_signal)).outcomes
        ≡ outcome_of (dispatched small_daemon 0 wire_request).0 ∷ [])
unfolding benchhand.LocalRpc.call benchhand.Contracts.Value.is_json_value
    benchhand.Daemon.Http.deadline_expired envelope_of benchhand.Daemon.Dispatch.dispatch_rpc
    benchhand.Daemon.Http.success_response benchhand.Contracts.Schema.parse_rpc_response
call_answered_example =
    call_answered small_daemon 0 wire_request health_request no_signal 7 none
      (λ reply. ok health_envelope) "r1" (123 ∷ 125 ∷ []) (123 ∷ 125 ∷ []) refl refl refl refl refl
      refl (omega arith)

read_request_body_joined_example :
    read_request_body
      (map body_data ((1 ∷ []) ∷ (2 ∷ 3 ∷ []) ∷ []) ++ (body_end ∷ body_aborted ∷ []))
    ≡ some (
        if leb (length (concatenated ((1 ∷ []) ∷ (2 ∷ 3 ∷ []) ∷ []))) max_request_bytes
        then ok (concatenated ((1 ∷ []) ∷ (2 ∷ 3 ∷ []) ∷ []))
        else body_too_large)
read_request_body_joined_example =
    read_request_body_joined ((1 ∷ []) ∷ (2 ∷ 3 ∷ []) ∷ []) (body_aborted ∷ [])

abbrev stale_machine : Machine
stale_machine = record {
  platform = linux;
  lstat_fault = none;
  probe = λ in_use. probe_error econnrefused;
  unlink = λ entry. ok free;
  open_sqlite_database = ok tt;
  reconcile_interrupted = ok tt;
  workspace_registry = ok tt;
  integrity_check = ok true;
  listen_on_ipc = ok tt;
  close_http_server = ok tt;
}

abbrev start_options : StartDaemonOptions
start_options = record {
  database_path = "/tmp/db";
  socket_path = "/tmp/s";
  socket_path_bytes = 6;
  worktree_root = none;
}

start_daemon-AllOrNothing_example :
    AllOrNothing stale_machine
      (socket false)
      (start_daemon stale_machine start_options (socket false))
start_daemon-AllOrNothing_example =
    start_daemon-AllOrNothing stale_machine start_options (socket false)
