-- ===== src/Filesystem/Errors.antt =====
-- `FilesystemError` of packages/filesystem/src/index.ts: its code, its path and its details. The
-- message is left out: it is text for people, made from the same parts.
use benchhand.Prelude.{ℕ, Option}
use benchhand.Prelude.Text.{Text}

pub data ErrorCode : Type 0 where
  invalid_request invalid_path invalid_cursor : ErrorCode
  workspace_not_found workspace_unavailable : ErrorCode
  path_outside_workspace path_not_found path_inaccessible path_not_file : ErrorCode
  path_not_directory path_symlink_unsupported file_too_large filesystem_failure : ErrorCode
  write_conflict write_failed write_too_large : ErrorCode
  patch_conflict patch_failed patch_too_large patch_binary_unsupported : ErrorCode

pub data Details : Type 0 where
  no_details : Details
  expected_text_not_found : (edit_index : ℕ) → Details
  ambiguous_match : (edit_index match_count : ℕ) → Details
  overlapping_edits : (edit_index conflicts_with_edit_index : ℕ) → Details
  sha256_mismatch : (expected_sha256 : Text) (actual_sha256 : Option Text) → Details

pub record FilesystemError : Type 0 where
  pub code : ErrorCode
  pub path : Option Text
  pub details : Details

abbrev pub failure : ErrorCode → Option Text → FilesystemError
failure code path = record { code = code; path = path; details = no_details }
