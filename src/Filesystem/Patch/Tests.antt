-- ===== src/Filesystem/Patch/Tests.antt =====
-- Patches of short texts.
use mathlib.Core.List.{Perm}
use benchhand.Prelude.{true, List, [], ◌∷◌, ◌≡◌, ◌↔◌, refl, map, drop, All, ok}
use benchhand.Prelude.Text.{Text, starts_with, index_of_from}
use benchhand.Filesystem.Patch.{
  FilesystemPatchEdit, PlannedPatchEdit, find_all_occurrences, plan_exact_patch,
  apply_planned_patch,
}
use benchhand.Filesystem.Patch.Occurrences.{elem, find_all_occurrences_iff}
use benchhand.Filesystem.Patch.Rewrites.{IsPlaced, Rewrites, plan-apply-Rewrites}

-- `let a = b;`
abbrev statement : Text
statement = 108 ∷ 101 ∷ 116 ∷ 32 ∷ 97 ∷ 32 ∷ 61 ∷ 32 ∷ 98 ∷ 59 ∷ []

abbrev rename_b : FilesystemPatchEdit
rename_b = record { old_text = 98 ∷ []; new_text = 99 ∷ 99 ∷ [] }

abbrev rename_a : FilesystemPatchEdit
rename_a = record { old_text = 32 ∷ 97 ∷ []; new_text = 32 ∷ 120 ∷ [] }

abbrev planned_edits : List PlannedPatchEdit
planned_edits =
    record { edit = rename_a; edit_index = 1; start = 3; end = 5 }
    ∷ record { edit = rename_b; edit_index = 0; start = 8; end = 9 }
    ∷ []

planned : plan_exact_patch statement (rename_b ∷ rename_a ∷ []) (97 ∷ []) ≡ ok planned_edits
unfolding plan_exact_patch index_of_from
planned = refl

patched :
    apply_planned_patch statement planned_edits
    ≡ 108 ∷ 101 ∷ 116 ∷ 32 ∷ 120 ∷ 32 ∷ 61 ∷ 32 ∷ 99 ∷ 99 ∷ 59 ∷ []
unfolding apply_planned_patch
patched = refl

overlapping : find_all_occurrences (97 ∷ 97 ∷ 97 ∷ []) (97 ∷ 97 ∷ []) ≡ 0 ∷ 1 ∷ []
unfolding find_all_occurrences index_of_from
overlapping = refl

plan-apply-Rewrites_example :
    Perm (map (λ (e : PlannedPatchEdit). e.edit) planned_edits) (rename_b ∷ rename_a ∷ [])
    × All (IsPlaced statement) planned_edits
    × Rewrites planned_edits statement (apply_planned_patch statement planned_edits)
plan-apply-Rewrites_example =
    plan-apply-Rewrites statement (97 ∷ []) (rename_b ∷ rename_a ∷ []) planned_edits
      ((λ e. cc e), ((λ e. cc e), tt)) planned

find_all_occurrences_iff_example :
    (elem 3 (find_all_occurrences statement (32 ∷ 97 ∷ [])) ≡ true)
    ↔ (starts_with (drop 3 statement) (32 ∷ 97 ∷ []) ≡ true)
find_all_occurrences_iff_example = find_all_occurrences_iff statement (32 ∷ 97 ∷ []) 3 (λ e. cc e)
