-- ===== src/Filesystem/PatchFile/Tests.antt =====
-- A patch of a one-letter file.
use mathlib.Core.List.{Perm}
use benchhand.Prelude.{ℕ, true, false, some, List, [], ◌∷◌, ◌≡◌, refl, map, length, All, ok}
use benchhand.Prelude.Text.{Text, text_eq, index_of_from}
use benchhand.Filesystem.Patch.{FilesystemPatchEdit, PlannedPatchEdit}
use benchhand.Filesystem.Patch.Rewrites.{IsPlaced, Rewrites}
use benchhand.Filesystem.Write.{regular, Directory}
use benchhand.Filesystem.Write.Tests.{
  plain_system, plain_system-IsPosix, plain_inspection, old_read, circumstances, old_text, new_text,
}
use benchhand.Filesystem.PatchFile.{FilesystemPatchResult, Utf8, patch_file, normalize_patch_edits}
use benchhand.Filesystem.PatchFile.Applied.{patch_file_applies}

abbrev same_units : Utf8
same_units = record { encode = λ text. text; decode = λ bytes. some bytes }

abbrev one_edit : List FilesystemPatchEdit
one_edit = record { old_text = old_text; new_text = new_text } ∷ []

abbrev patch_result : FilesystemPatchResult
patch_result = record {
  path = old_text;
  previous_sha256 = old_text;
  sha256 = new_text;
  edits_applied = 1;
  bytes_written = 2;
  file_and_directory = true;
}

abbrev patched_directory : Directory
patched_directory = record { target = regular new_text 0o600; staged = false }

patches :
    patch_file plain_system same_units old_text old_text one_edit plain_inspection
      (ok old_text)
      (λ entry. entry)
      plain_inspection
      (circumstances (λ entry. entry))
      (regular old_text 0o600)
    ≡ (ok patch_result, patched_directory)
unfolding patch_file index_of_from text_eq
patches = refl

normalizes_edits : normalize_patch_edits one_edit ≡ ok one_edit
unfolding normalize_patch_edits
normalizes_edits = refl

patch_file_applies_example :
    (bytes source result : Text) × (planned : List PlannedPatchEdit) × (old read reread : Text)
    × (mode : ℕ) × (bytes ≡ old_text)
    × (some bytes ≡ some source)
    × Perm (map (λ (e : PlannedPatchEdit). e.edit) planned) one_edit
    × All (IsPlaced source) planned
    × Rewrites planned source result
    × (regular old_text 0o600 ≡ regular old mode)
    × (old_read ≡ ok read)
    × (read ≡ old_text)
    × (old_read ≡ ok reread)
    × (reread ≡ old_text)
    × (regular new_text 0o600 ≡ regular result mode)
    × (false ≡ false)
    × (1 ≡ length planned)
unfolding benchhand.Filesystem.Write.read_by
patch_file_applies_example =
    patch_file_applies plain_system same_units old_text old_text one_edit plain_system-IsPosix
      plain_inspection (ok old_text) (λ entry. entry) plain_inspection
      (circumstances (λ entry. entry)) (regular old_text 0o600) patch_result patched_directory
      ((λ e. cc e), tt) patches
