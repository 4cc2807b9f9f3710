-- ===== src/Filesystem/Write.antt =====
-- `#writeAtomic`, `inspectWriteTarget`, the preconditions and the mapping of system errors of
-- packages/filesystem/src/index.ts. The directory that is written to is one entry, the target, and
-- the staged file. Other processes may change the target between the calls.
pub mod Outcomes
pub mod Tests
use benchhand.Prelude.{
  ℕ, Bool, true, false, ◌&&◌, ◌||◌, not, Option, none, some, List, if◌then◌else◌, ◌==◌, leb, length,
  all, map, ◌+◌, Result, ok, err, ◌>>=◌, ◌>>◌, throw_if,
}
use benchhand.Prelude.Text.{Text, text_eq}
use benchhand.Filesystem.Errors.{
  FilesystemError, failure, invalid_request, path_not_found, path_inaccessible, filesystem_failure,
  path_symlink_unsupported, path_not_file, write_conflict, write_failed, patch_conflict,
  sha256_mismatch,
}

-- The `code` of a system error.
pub data Errno : Type 0 where
  eexist enoent enotdir eacces eperm other_errno : Errno

-- What the write throws: an error of the service, or a system error as it is.
pub data WriteError : Type 0 where
  filesystem_error : FilesystemError → WriteError
  system_error : Errno → WriteError

unfoldable pub map_filesystem_error : Text → Errno → FilesystemError
map_filesystem_error path enoent = failure path_not_found (some path)
map_filesystem_error path enotdir = failure path_not_found (some path)
map_filesystem_error path eacces = failure path_inaccessible (some path)
map_filesystem_error path eperm = failure path_inaccessible (some path)
map_filesystem_error path _ = failure filesystem_failure (some path)

unfoldable pub map_write_failure : Text → WriteError → FilesystemError
map_write_failure path (filesystem_error e) = e
map_write_failure path (system_error eacces) = failure path_inaccessible (some path)
map_write_failure path (system_error eperm) = failure path_inaccessible (some path)
map_write_failure path (system_error _) = failure write_failed (some path)

-- `expectedSha256`: undefined, null or a digest.
pub data Expected : Type 0 where
  anything create_only : Expected
  exactly : Text → Expected

is_hex : ℕ → Bool
is_hex c = (leb 48 c && leb c 57) || ((leb 65 c && leb c 70) || (leb 97 c && leb c 102))

-- `toLowerCase` of a hexadecimal digit
lower : ℕ → ℕ
lower c = if leb 65 c && leb c 90 then c + 32 else c

unfoldable pub normalize_required_sha256 : Text → Result FilesystemError Text
unfolding is_hex lower
normalize_required_sha256 value =
    if length value == 64 && all is_hex value
    then ok (map lower value)
    else err (failure invalid_request none)

unfoldable pub normalize_expected_sha256 : Expected → Result FilesystemError Expected
unfolding normalize_required_sha256
normalize_expected_sha256 (exactly value) = do
  digest ← normalize_required_sha256 value
  ok (exactly digest)
normalize_expected_sha256 expected = ok expected

-- What stands at a path.
pub data Entry : Type 0 where
  absent symbolic_link special : Entry
  regular : (content : Text) (mode : ℕ) → Entry

pub record WriteTargetState : Type 0 where
  pub exists : Bool
  pub mode : ℕ
  pub sha256 : Option Text
  pub size : ℕ

-- `!current.exists || current.sha256 !== expected`
differs : Text → WriteTargetState → Bool
differs expected current =
    not current.exists || elim current.sha256 [ none ↦ true | some d ↦ not (text_eq d expected) ]

unfoldable pub enforce_write_precondition :
    Expected → WriteTargetState → Text → Result FilesystemError (Unit {0})
unfolding differs
enforce_write_precondition anything current path = ok tt
enforce_write_precondition create_only current path =
    throw_if current.exists (failure write_conflict (some path))
enforce_write_precondition (exactly expected) current path =
    throw_if (differs expected current) (failure write_conflict (some path))

unfoldable pub enforce_patch_hash_precondition :
    Text → WriteTargetState → Text → Result FilesystemError (Unit {0})
unfolding differs
enforce_patch_hash_precondition expected current path =
    throw_if (differs expected current) (record {
      code = patch_conflict;
      path = some path;
      details = sha256_mismatch expected current.sha256;
    })

-- SHA-256 in hexadecimal, the mode that the umask leaves of a mode, and the two calls that put the
-- staged content at the target.
pub record System : Type 0 where
  pub digest : Text → Text
  pub masked : ℕ → ℕ
  pub link_file : (content : Text) (mode : ℕ) → Entry → Result Errno Entry
  pub rename_file : (content : Text) (mode : ℕ) → Entry → Result Errno Entry

-- One inspection of the target: what its `lstat` throws, except for an absent target; what other
-- processes do to the target before it is opened; what the `open` throws; and what opening gives
-- where a link or a special file has come to stand there. That a read of the opened file fails, or
-- that the file changes while it is read, is left out.
pub record Inspection : Type 0 where
  pub lstat_fault : Option Errno
  pub before_open : Entry → Entry
  pub open_fault : Option Errno
  pub opened_elsewhere : Result Errno Text

unfoldable pub opened_content : Option Errno → Result Errno Text → Entry → Result Errno Text
opened_content (some fault) elsewhere entry = err fault
opened_content none elsewhere absent = err enoent
opened_content none elsewhere (regular content mode) = ok content
opened_content none elsewhere symbolic_link = elsewhere
opened_content none elsewhere special = elsewhere

-- The content that an inspection hashes when the target is a regular file at its `lstat`.
unfoldable pub read_by : Inspection → Entry → Result Errno Text
unfolding opened_content
read_by i entry = opened_content i.open_fault i.opened_elsewhere (i.before_open entry)

-- Which calls fail in one write, and what other processes do to the target meanwhile.
pub record Circumstances : Type 0 where
  pub first_inspection : Inspection
  pub open_fault : Option Errno
  pub fill_fault : Option Errno
  pub second_inspection : Inspection
  pub cleanup_works : Bool
  pub directory_synced : Bool
  pub while_staging : Entry → Entry
  pub before_commit : Entry → Entry

pub record FilesystemWriteResult : Type 0 where
  pub path : Text
  pub created : Bool
  pub previous_sha256 : Option Text
  pub sha256 : Text
  pub bytes_written : ℕ
  pub file_and_directory : Bool

pub record Directory : Type 0 where
  pub target : Entry
  pub staged : Bool

-- The target at the second inspection of a write, and at its commit.
abbrev pub at_second : Circumstances → Entry → Entry
at_second c target = c.while_staging (c.first_inspection.before_open target)

abbrev pub at_commit : Circumstances → Entry → Entry
at_commit c target = c.before_commit (c.second_inspection.before_open (at_second c target))

module _ (system : System) (path : Text) where
  -- The end of an inspection: mode and size are those that `lstat` gave.
  unfoldable pub hashed :
      (mode size : ℕ) → Result Errno Text → Result FilesystemError WriteTargetState
  unfolding map_filesystem_error
  hashed mode size (err fault) = err (map_filesystem_error path fault)
  hashed mode size (ok content) =
      ok (record { exists = true; mode = mode; sha256 = some (system.digest content); size = size })

  -- `seen` is the target at the `lstat`, and `reading` what the read that may follow gives.
  unfoldable pub looked_at :
      (lstat_fault : Option Errno) (seen : Entry) (reading : Result Errno Text)
      → Result FilesystemError WriteTargetState
  unfolding map_filesystem_error hashed
  looked_at (some fault) seen reading = err (map_filesystem_error path fault)
  looked_at none absent reading = ok (record { exists = false; mode = 0; sha256 = none; size = 0 })
  looked_at none symbolic_link reading = err (failure path_symlink_unsupported (some path))
  looked_at none special reading = err (failure path_not_file (some path))
  looked_at none (regular content mode) reading = hashed mode (length content) reading

  unfoldable pub inspect_write_target : Inspection → Entry → Result FilesystemError WriteTargetState
  unfolding looked_at read_by
  inspect_write_target i entry = looked_at i.lstat_fault entry (read_by i entry)

  pub enforced :
      Expected → Result FilesystemError WriteTargetState → Result FilesystemError WriteTargetState
  unfolding enforce_write_precondition
  enforced expected inspected = do
    current ← inspected
    enforce_write_precondition expected current path
    ok current

  pub inspect_and_enforce : Expected → Inspection → Entry → Result FilesystemError WriteTargetState
  unfolding inspect_write_target enforced
  inspect_and_enforce expected i entry = enforced expected (inspect_write_target i entry)

  pub staged_mode : WriteTargetState → ℕ
  staged_mode initial = if initial.exists then initial.mode else system.masked 0o666

  module _ (content : Text) (expected : Expected) (c : Circumstances) where
    -- The `finally` block while the staged file exists.
    clean_up : WriteError → Entry → Result WriteError FilesystemWriteResult × Directory
    clean_up e target = (err e, record { target = target; staged = not c.cleanup_works })

    commit : ℕ → Entry → Result Errno Entry
    commit mode target = elim expected [
      | create_only ↦ system.link_file content mode target
      | _ ↦ system.rename_file content mode target
    ]

    commit_error : Errno → WriteError
    unfolding map_write_failure
    commit_error errno = elim expected [
      | create_only ↦ elim errno [
        | eexist ↦ filesystem_error (failure write_conflict (some path))
        | other ↦ filesystem_error (map_write_failure path (system_error other))
      ]
      | _ ↦ filesystem_error (map_write_failure path (system_error errno))
    ]

    -- A link leaves the staged file, which is removed; a rename takes it away.
    left_staged : Bool
    left_staged = elim expected [ create_only ↦ not c.cleanup_works | _ ↦ false ]

    committed :
        WriteTargetState
        → Entry
        → Result Errno Entry
        → Result WriteError FilesystemWriteResult × Directory
    unfolding clean_up commit_error left_staged
    committed before target (err errno) = clean_up (commit_error errno) target
    committed before target (ok entry) = (
      ok (record {
        path = path;
        created = not before.exists;
        previous_sha256 = if before.exists then before.sha256 else none;
        sha256 = system.digest content;
        bytes_written = length content;
        file_and_directory = c.directory_synced;
      }),
      record { target = entry; staged = left_staged },
    )

    rechecked :
        ℕ
        → Entry
        → Result FilesystemError WriteTargetState
        → Result WriteError FilesystemWriteResult × Directory
    unfolding committed commit
    rechecked mode target (err e) = clean_up (filesystem_error e) target
    rechecked mode target (ok before) =
        let now = c.before_commit target in committed before now (commit mode now)

    filled : ℕ → Entry → Option Errno → Result WriteError FilesystemWriteResult × Directory
    unfolding rechecked inspect_and_enforce
    filled mode target (some errno) = clean_up (system_error errno) target
    filled mode target none =
        rechecked mode (c.second_inspection.before_open target)
          (inspect_and_enforce expected c.second_inspection target)

    opened :
        WriteTargetState
        → Entry
        → Option Errno
        → Result WriteError FilesystemWriteResult × Directory
    unfolding filled staged_mode map_write_failure
    opened initial target (some errno) = (
      err (filesystem_error (map_write_failure path (system_error errno))),
      record { target = target; staged = false },
    )
    opened initial target none = filled (staged_mode initial) (c.while_staging target) c.fill_fault

    checked :
        Entry
        → Result FilesystemError WriteTargetState
        → Result WriteError FilesystemWriteResult × Directory
    unfolding opened
    checked target (err e) = (err (filesystem_error e), record { target = target; staged = false })
    checked target (ok initial) = opened initial target c.open_fault

    unfoldable pub write_atomic : Entry → Result WriteError FilesystemWriteResult × Directory
    unfolding checked inspect_and_enforce
    write_atomic target =
        checked (c.first_inspection.before_open target)
          (inspect_and_enforce expected c.first_inspection target)
