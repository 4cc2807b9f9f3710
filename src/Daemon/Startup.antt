-- ===== src/Daemon/Startup.antt =====
-- `startDaemon` of packages/daemon/src/index.ts with `prepareIpcEndpoint`, `isUnixSocketActive` and
-- `close`. What the calls of Node, SQLite and the components answer is the parameter `Machine`.
pub mod Lifecycle
use benchhand.Prelude.{
  ℕ, String, Bool, true, false, ◌||◌, ◌&&◌, not, Option, none, some, List, [], ◌∷◌, if◌then◌else◌,
  str_eq, ltb, length, Result, ok, err, ◌>>=◌, ◌>>◌, throw_if, Exec,
}
use benchhand.Prelude.Text.{Text}
use benchhand.Contracts.Schema.{Thrown, error_object}

pub data Platform : Type 0 where
  win32 darwin linux other_platform : Platform

unfoldable pub unix_socket_path_maximum_bytes : Platform → ℕ
unix_socket_path_maximum_bytes darwin = 103
unix_socket_path_maximum_bytes linux = 107
unix_socket_path_maximum_bytes _ = 100

-- The `code` of a system error, or the error itself.
pub data SystemFailure : Type 0 where
  enoent econnrefused : SystemFailure
  other_fault : Thrown → SystemFailure

-- `DaemonStartError` with its code, a `TypeError` of the options, or an error thrown on.
pub data StartFailure : Type 0 where
  start_error : (code : String) → StartFailure
  option_error : (message : String) → StartFailure
  fault : SystemFailure → StartFailure
  thrown_error : Thrown → StartFailure

-- The callbacks of the probing socket: `settled` lets the first one answer.
pub data ProbeEvent : Type 0 where
  probe_timeout probe_connect : ProbeEvent
  probe_error : SystemFailure → ProbeEvent

unfoldable pub is_unix_socket_active : ProbeEvent → Result StartFailure Bool
is_unix_socket_active probe_timeout = err (start_error "IPC_PROBE_TIMEOUT")
is_unix_socket_active probe_connect = ok true
is_unix_socket_active (probe_error econnrefused) = ok false
is_unix_socket_active (probe_error enoent) = ok false
is_unix_socket_active (probe_error e) = err (fault e)

-- What stands at the socket's path.
pub data EndpointEntry : Type 0 where
  free not_a_socket : EndpointEntry
  socket : (in_use : Bool) → EndpointEntry

pub record Machine : Type 0 where
  pub platform : Platform
  pub lstat_fault : Option Thrown
  pub probe : (in_use : Bool) → ProbeEvent
  pub unlink : EndpointEntry → Result SystemFailure EndpointEntry
  pub open_sqlite_database : Result Thrown (Unit {0})
  pub reconcile_interrupted : Result Thrown (Unit {0})
  pub workspace_registry : Result Thrown (Unit {0})
  pub integrity_check : Result Thrown Bool
  pub listen_on_ipc : Result Thrown (Unit {0})
  pub close_http_server : Result Thrown (Unit {0})

module _ (machine : Machine) where
  unfoldable pub unlinked :
      EndpointEntry
      → Result SystemFailure EndpointEntry
      → Result StartFailure (Unit {0}) × EndpointEntry
  unlinked entry (ok after) = (ok tt, after)
  unlinked entry (err enoent) = (ok tt, free)
  unlinked entry (err e) = (err (fault e), entry)

  unfoldable pub probed :
      EndpointEntry → Result StartFailure Bool → Result StartFailure (Unit {0}) × EndpointEntry
  unfolding unlinked
  probed entry (err e) = (err e, entry)
  probed entry (ok true) = (err (start_error "IPC_ENDPOINT_IN_USE"), entry)
  probed entry (ok false) = unlinked entry (machine.unlink entry)

  -- The `lstat` of the path and what follows.
  unfoldable pub inspected :
      Option Thrown → EndpointEntry → Result StartFailure (Unit {0}) × EndpointEntry
  unfolding probed is_unix_socket_active
  inspected (some e) entry = (err (thrown_error e), entry)
  inspected none free = (ok tt, free)
  inspected none not_a_socket = (err (start_error "IPC_PATH_OCCUPIED"), not_a_socket)
  inspected none (socket in_use) =
      probed (socket in_use) (is_unix_socket_active (machine.probe in_use))

  unfoldable pub measured_endpoint : (too_long : Bool) → Exec EndpointEntry StartFailure (Unit {0})
  unfolding inspected
  measured_endpoint true entry = (err (start_error "IPC_PATH_TOO_LONG"), entry)
  measured_endpoint false entry = inspected machine.lstat_fault entry

  unfoldable pub endpoint_on :
      Platform → (path_bytes : ℕ) → Exec EndpointEntry StartFailure (Unit {0})
  unfolding measured_endpoint unix_socket_path_maximum_bytes
  endpoint_on win32 path_bytes entry = (ok tt, entry)
  endpoint_on unix path_bytes entry =
      measured_endpoint (ltb (unix_socket_path_maximum_bytes unix) path_bytes) entry

  unfoldable pub prepare_ipc_endpoint :
      (path_bytes : ℕ) → Exec EndpointEntry StartFailure (Unit {0})
  unfolding endpoint_on
  prepare_ipc_endpoint path_bytes entry = endpoint_on machine.platform path_bytes entry

-- What a daemon holds.
pub record Resources : Type 0 where
  pub endpoint : EndpointEntry
  pub database_open : Bool
  pub listening : Bool
  pub ready : Bool
  pub closed : Bool

abbrev pub nothing_held : EndpointEntry → Resources
nothing_held entry = record {
  endpoint = entry;
  database_open = false;
  listening = false;
  ready = false;
  closed = false;
}

pub record StartDaemonOptions : Type 0 where
  pub database_path : String
  pub socket_path : String
  pub socket_path_bytes : ℕ
  pub worktree_root : Option String

is_empty : Option String → Bool
is_empty none = false
is_empty (some root) = str_eq root ""

unfoldable pub check_options : StartDaemonOptions → Result StartFailure (Unit {0})
unfolding is_empty
check_options options = do
  throw_if (str_eq options.database_path "") (option_error "databasePath must not be empty")
  throw_if (str_eq options.socket_path "") (option_error "socketPath must not be empty")
  throw_if (is_empty options.worktree_root) (option_error "worktreeRoot must not be empty")

thrown_as_is : {A : Type 0} → Result Thrown A → Result StartFailure A
thrown_as_is (err e) = err (thrown_error e)
thrown_as_is (ok a) = ok a

-- `storageIntegrity !== 'ok'`
unfoldable pub require_integrity : Bool → Result StartFailure (Unit {0})
require_integrity sound =
    throw_if (not sound) (thrown_error (error_object "Error" "SQLite integrity check failed"))

module _ (machine : Machine) where
  -- The body of the `try` block: the server listens when it returns.
  unfoldable pub bring_up : Result StartFailure (Unit {0})
  unfolding thrown_as_is require_integrity
  bring_up = do
    thrown_as_is machine.reconcile_interrupted
    thrown_as_is machine.workspace_registry
    sound ← thrown_as_is machine.integrity_check
    require_integrity sound
    thrown_as_is machine.listen_on_ipc

  -- A server that listens has made the socket at its path. The `catch` block closes the database:
  -- the server listens only once nothing can throw.
  unfoldable pub brought_up :
      Result StartFailure (Unit {0}) → Exec Resources StartFailure (Unit {0})
  brought_up (ok _) r = (ok tt, record r { endpoint = socket true; listening = true; ready = true })
  brought_up (err e) r = (err e, record r { database_open = false })

  unfoldable pub database_opened : Result Thrown (Unit {0}) → Exec Resources StartFailure (Unit {0})
  unfolding brought_up bring_up
  database_opened (err e) r = (err (thrown_error e), r)
  database_opened (ok _) r = brought_up bring_up (record r { database_open = true })

  unfoldable pub endpoint_prepared :
      Result StartFailure (Unit {0}) × EndpointEntry → Result StartFailure (Unit {0}) × Resources
  unfolding database_opened
  endpoint_prepared (err e, entry) = (err e, nothing_held entry)
  endpoint_prepared (ok _, entry) =
      database_opened machine.open_sqlite_database (nothing_held entry)

  unfoldable pub options_checked :
      Result StartFailure (Unit {0})
      → (path_bytes : ℕ) → EndpointEntry
      → Result StartFailure (Unit {0}) × Resources
  unfolding endpoint_prepared prepare_ipc_endpoint
  options_checked (err e) path_bytes entry = (err e, nothing_held entry)
  options_checked (ok _) path_bytes entry =
      endpoint_prepared (prepare_ipc_endpoint machine path_bytes entry)

  unfoldable pub start_daemon :
      StartDaemonOptions → EndpointEntry → Result StartFailure (Unit {0}) × Resources
  unfolding options_checked check_options
  start_daemon options entry =
      options_checked (check_options options) options.socket_path_bytes entry

  -- `closeHttpServer` and `database.close`, which a failure of the former skips. A server that closes
  -- removes its socket.
  unfoldable pub server_closed : Result Thrown (Unit {0}) → Exec Resources Thrown (Unit {0})
  server_closed (err e) r = (err e, r)
  server_closed (ok _) r =
      (ok tt, record r { endpoint = free; listening = false; database_open = false })

  unfoldable pub close : Exec Resources Thrown (Unit {0})
  unfolding server_closed
  close r =
      if r.closed
      then (ok tt, r)
      else server_closed machine.close_http_server (record r { closed = true; ready = false })
