-- ===== src/Filesystem/Patch.antt =====
-- Exact text patches: `findAllOccurrences`, `planExactPatch` and `applyPlannedPatch` of
-- packages/filesystem/src/index.ts, over UTF-16 code units.
pub mod Occurrences
pub mod Rewrites
pub mod Tests
use mathlib.Core.Option
use benchhand.Prelude.{
  ℕ, zero, suc, ◌+◌, Bool, true, false, Option, none, some, List, [], ◌∷◌, ◌++◌, if◌then◌else◌, ltb,
  leb, ◌==◌, length, drop, Result, ok, err, ◌>>=◌, ◌>>◌, throw_if,
}
use benchhand.Prelude.Text.{Text, index_of_from, slice}
use benchhand.Filesystem.Errors.{
  FilesystemError, Details, patch_conflict, expected_text_not_found, ambiguous_match,
  overlapping_edits,
}

pub record FilesystemPatchEdit : Type 0 where
  pub old_text : Text
  pub new_text : Text

pub record PlannedPatchEdit : Type 0 where
  pub edit : FilesystemPatchEdit
  pub open edit use *
  pub edit_index : ℕ
  pub start : ℕ
  pub end : ℕ

-- One round of the `for (;;)` loop, with the rounds that follow it.
next_round : (ℕ → List ℕ) → Option ℕ → List ℕ
next_round later none = []
next_round later (some found) = found ∷ later (found + 1)

-- Each round moves `from` forward, so one round for each position is enough.
occurrences_from : ℕ → Text → Text → ℕ → List ℕ
unfolding next_round
occurrences_from zero source expected from = []
occurrences_from (suc fuel) source expected from =
    next_round (occurrences_from fuel source expected) (index_of_from source expected from)

unfoldable pub find_all_occurrences : Text → Text → List ℕ
unfolding occurrences_from
find_all_occurrences source expected = occurrences_from (length source + 1) source expected 0

abbrev conflict : Text → Details → FilesystemError
conflict path details = record { code = patch_conflict; path = some path; details = details }

-- `matches[0] ?? 0`
abbrev first_or_zero : List ℕ → ℕ
first_or_zero [] = 0
first_or_zero (m ∷ _) = m

plan_edit : Text → Text → ℕ → FilesystemPatchEdit → Result FilesystemError PlannedPatchEdit
unfolding find_all_occurrences
plan_edit source path edit_index edit =
    let matches = find_all_occurrences source edit.old_text in
    if length matches == 0
    then err (conflict path (expected_text_not_found edit_index))
    else if ltb 1 (length matches)
    then err (conflict path (ambiguous_match edit_index (length matches)))
    else let start = first_or_zero matches in
      ok (record {
        edit = edit;
        edit_index = edit_index;
        start = start;
        end = start + length edit.old_text;
      })

-- `edits.map(…)`, which stops at the first throw
plan_edits :
    Text → Text → ℕ → List FilesystemPatchEdit → Result FilesystemError (List PlannedPatchEdit)
unfolding plan_edit
plan_edits source path index [] = ok []
plan_edits source path index (edit ∷ edits) = do
  planned ← plan_edit source path index edit
  rest ← plan_edits source path (index + 1) edits
  ok (planned ∷ rest)

-- The stable sort by `left.start - right.start`
insert_by_start : PlannedPatchEdit → List PlannedPatchEdit → List PlannedPatchEdit
insert_by_start e [] = e ∷ []
insert_by_start e (f ∷ fs) = if leb e.start f.start then e ∷ f ∷ fs else f ∷ insert_by_start e fs

sort_by_start : List PlannedPatchEdit → List PlannedPatchEdit
unfolding insert_by_start
sort_by_start [] = []
sort_by_start (e ∷ es) = insert_by_start e (sort_by_start es)

-- The loop over neighbours in the sorted plan
check_overlaps : Text → List PlannedPatchEdit → Result FilesystemError (Unit {0})
check_overlaps path [] = ok tt
check_overlaps path (previous ∷ []) = ok tt
check_overlaps path (previous ∷ current ∷ rest) =
    let later = check_overlaps path (current ∷ rest) in
    if ltb current.start previous.end
    then err (conflict path (overlapping_edits current.edit_index previous.edit_index))
    else later

unfoldable pub plan_exact_patch :
    Text → List FilesystemPatchEdit → Text → Result FilesystemError (List PlannedPatchEdit)
unfolding plan_edits sort_by_start check_overlaps
plan_exact_patch source edits path = do
  planned ← plan_edits source path 0 edits
  check_overlaps path (sort_by_start planned)
  ok (sort_by_start planned)

apply_from : Text → ℕ → List PlannedPatchEdit → Text
unfolding slice
apply_from source cursor [] = drop cursor source
apply_from source cursor (edit ∷ planned) =
    slice source cursor edit.start ++ edit.new_text ++ apply_from source edit.end planned

unfoldable pub apply_planned_patch : Text → List PlannedPatchEdit → Text
unfolding apply_from
apply_planned_patch source planned = apply_from source 0 planned
