-- ===== src/Filesystem/PatchFile.antt =====
-- The body of `FilesystemService.patch` of packages/filesystem/src/index.ts that runs for one
-- target at a time, and `normalizePatchEdits`.
pub mod Applied
mod Tests
use benchhand.Prelude.{
  ℕ, ◌+◌, Bool, true, false, ◌||◌, not, Option, none, some, List, [], ◌∷◌, if◌then◌else◌, ltb, ◌==◌,
  any, length, Result, ok, err, ◌>>=◌, ◌>>◌, throw_if, or_throw,
}
use benchhand.Prelude.Text.{Text, text_eq, includes_nul}
use benchhand.Filesystem.Errors.{
  ErrorCode, FilesystemError, failure, invalid_request, patch_conflict, patch_failed,
  patch_too_large, patch_binary_unsupported, write_conflict, write_failed, sha256_mismatch,
}
use benchhand.Filesystem.Patch.{
  FilesystemPatchEdit, PlannedPatchEdit, plan_exact_patch, apply_planned_patch,
}
use benchhand.Filesystem.Write.{
  Errno, WriteError, filesystem_error, system_error, Expected, exactly, Entry, WriteTargetState,
  System, Inspection, Circumstances, FilesystemWriteResult, Directory, map_filesystem_error,
  enforce_patch_hash_precondition, inspect_write_target, write_atomic,
}

abbrev pub max_write_bytes : ℕ
max_write_bytes = 16777216

abbrev pub max_patch_edits : ℕ
max_patch_edits = 256

-- `edits` are taken for objects with two strings, which the types of the request say.
bad_edit : FilesystemPatchEdit → Bool
bad_edit edit =
    length edit.old_text == 0 || includes_nul edit.old_text || includes_nul edit.new_text

unfoldable pub normalize_patch_edits :
    List FilesystemPatchEdit → Result FilesystemError (List FilesystemPatchEdit)
unfolding bad_edit
normalize_patch_edits edits = do
  throw_if (length edits == 0 || ltb max_patch_edits (length edits)) (failure invalid_request none)
  throw_if (any bad_edit edits) (failure invalid_request none)
  ok edits

unfoldable pub patch_hash_conflict : Text → Text → Option Text → FilesystemError
patch_hash_conflict path expected actual = record {
  code = patch_conflict;
  path = some path;
  details = sha256_mismatch expected actual;
}

pub record FilesystemPatchResult : Type 0 where
  pub path : Text
  pub previous_sha256 : Text
  pub sha256 : Text
  pub edits_applied : ℕ
  pub bytes_written : ℕ
  pub file_and_directory : Bool

-- What is known before the write.
pub record PreparedPatch : Type 0 where
  pub source_buffer : Text
  pub source : Text
  pub planned : List PlannedPatchEdit
  pub content : Text

-- UTF-8, whose decoding fails on invalid bytes.
pub record Utf8 : Type 0 where
  pub encode : Text → Text
  pub decode : Text → Option Text

-- `readWholeFile`, from what opening and reading the file answers.
read_whole_file : Text → ℕ → Result Errno Text → Result FilesystemError Text
unfolding map_filesystem_error
read_whole_file path size (err fault) =
    if ltb max_write_bytes size
    then err (failure patch_too_large (some path))
    else err (map_filesystem_error path fault)
read_whole_file path size (ok bytes) =
    if ltb max_write_bytes size || ltb max_write_bytes (length bytes)
    then err (failure patch_too_large (some path))
    else ok bytes

module _ (system : System) (utf8 : Utf8) (path expected : Text)
    (edits : List FilesystemPatchEdit) where
  -- `classifyBuffer` and `decodeUtf8`
  decode_text : Text → Result FilesystemError Text
  decode_text bytes =
      if includes_nul bytes
      then err (failure patch_binary_unsupported (some path))
      else or_throw (utf8.decode bytes) (failure patch_binary_unsupported (some path))

  pub prepare_patch : Inspection → Entry → Result Errno Text → Result FilesystemError PreparedPatch
  unfolding inspect_write_target enforce_patch_hash_precondition read_whole_file decode_text
      patch_hash_conflict plan_exact_patch apply_planned_patch
  prepare_patch first target reading = do
    initial ← inspect_write_target system path first target
    enforce_patch_hash_precondition expected initial path
    throw_if (ltb max_write_bytes initial.size) (failure patch_too_large (some path))
    bytes ← read_whole_file path initial.size reading
    throw_if (not (text_eq (system.digest bytes) expected))
        (patch_hash_conflict path expected (some (system.digest bytes)))
    source ← decode_text bytes
    planned ← plan_exact_patch source edits path
    throw_if (ltb max_write_bytes (length (utf8.encode (apply_planned_patch source planned))))
        (failure patch_too_large (some path))
    ok (record {
      source_buffer = bytes;
      source = source;
      planned = planned;
      content = utf8.encode (apply_planned_patch source planned);
    })

  -- The conflict names the digest that is found after the write has failed.
  conflict_found : Result FilesystemError WriteTargetState → FilesystemError
  unfolding patch_hash_conflict
  conflict_found (err e) = e
  conflict_found (ok current) = patch_hash_conflict path expected current.sha256

  patch_failure : Inspection → Entry → WriteError → WriteError
  unfolding conflict_found inspect_write_target
  patch_failure last target (system_error errno) = system_error errno
  patch_failure last target (filesystem_error e) = elim e.code [
    | write_conflict ↦
        filesystem_error (conflict_found (inspect_write_target system path last target))
    | write_failed ↦ filesystem_error (record e { code = patch_failed; path = some path })
    | _ ↦ filesystem_error e
  ]

  finished :
      Inspection
      → List PlannedPatchEdit
      → Result WriteError FilesystemWriteResult × Directory
      → Result WriteError FilesystemPatchResult × Directory
  unfolding patch_failure
  finished last planned (err e, dir) = (err (patch_failure last dir.target e), dir)
  finished last planned (ok write, dir) = (
    ok (record {
      path = path;
      previous_sha256 = expected;
      sha256 = write.sha256;
      edits_applied = length planned;
      bytes_written = write.bytes_written;
      file_and_directory = write.file_and_directory;
    }),
    dir,
  )

  written :
      Circumstances
      → Inspection
      → Entry
      → Entry
      → Result FilesystemError PreparedPatch
      → Result WriteError FilesystemPatchResult × Directory
  unfolding finished write_atomic
  written c last target now (err e) =
      (err (filesystem_error e), record { target = target; staged = false })
  written c last target now (ok prepared) =
      finished last prepared.planned
        (write_atomic system path prepared.content (exactly expected) c now)

  -- `reading` is what reading the file answers, `before_write` what other processes do between the
  -- first inspection and the write, and `last` the inspection after a conflict.
  unfoldable pub patch_file :
      (first : Inspection) (reading : Result Errno Text) (before_write : Entry → Entry)
      (last : Inspection)
      → Circumstances
      → Entry
      → Result WriteError FilesystemPatchResult × Directory
  unfolding written prepare_patch
  patch_file first reading before_write last c target =
      written c last target (before_write (first.before_open target))
        (prepare_patch first target reading)
