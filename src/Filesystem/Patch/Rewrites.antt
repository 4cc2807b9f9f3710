-- ===== src/Filesystem/Patch/Rewrites.antt =====
-- What a planned patch does to the source.
use mathlib.Core.List.{Perm}
use mathlib.Core.List.Perm
use benchhand.Prelude.{
  ℕ, ◌+◌, ◌-◌, ◌≤◌, Bool, true, false, List, [], ◌∷◌, ◌++◌, map, ◌≡◌, ◌≢◌, refl, sym, ap, ◌∙◌,
  arith, if◌then◌else◌, ◌==◌, ltb, leb, length, take, drop, take-append-drop, All, Bool-cases, inl,
  inr, ok, err, >>=-eq-ok, ok-injective, throw_if-eq-ok, append_assoc, ap₂, subst,
}
use benchhand.Prelude.Text.{Text, starts_with, starts_with-split, slice}
use benchhand.Filesystem.Errors.{expected_text_not_found, ambiguous_match}
use benchhand.Filesystem.Patch.{
  FilesystemPatchEdit, PlannedPatchEdit, find_all_occurrences, conflict, first_or_zero, plan_edit,
  plan_edits, insert_by_start, sort_by_start, check_overlaps, plan_exact_patch, apply_from,
  apply_planned_patch,
}
use benchhand.Filesystem.Patch.Occurrences.{elem, drop-drop, find_all_occurrences_iff}

-- The source is a gap, the first expected text, a gap, the second, …; the result has the same
-- gaps with the new texts between.
abbrev pub Rewrites : List PlannedPatchEdit → Text → Text → Type 0
Rewrites [] source result = source ≡ result
Rewrites (e ∷ es) source result =
    (gap rest rest' : Text) × (source ≡ gap ++ e.old_text ++ rest)
    × (result ≡ gap ++ e.new_text ++ rest')
    × Rewrites es rest rest'

-- The edit stands where the plan says, and nowhere else.
pub record IsPlaced (source : Text) (e : PlannedPatchEdit) : Type 0 where
  pub there : starts_with (drop e.start source) e.old_text ≡ true
  pub extent : e.end ≡ e.start + length e.old_text
  pub only : (i : ℕ) → starts_with (drop i source) e.old_text ≡ true → i ≡ e.start

abbrev pub IsExpected : FilesystemPatchEdit → Type 0
IsExpected edit = edit.old_text ≢ []

edit_there :
    (source path : Text) (index : ℕ) (edit : FilesystemPatchEdit) (matches : List ℕ)
    (e : PlannedPatchEdit)
    → ((i : ℕ) → (elem i matches ≡ true → starts_with (drop i source) edit.old_text ≡ true))
    → ((i : ℕ) → (starts_with (drop i source) edit.old_text ≡ true → elem i matches ≡ true))
    → (if length matches == 0
        then err (conflict path (expected_text_not_found index))
        else if ltb 1 (length matches)
        then err (conflict path (ambiguous_match index (length matches)))
        else let start = first_or_zero matches in
          ok (record {
            edit = edit;
            edit_index = index;
            start = start;
            end = start + length edit.old_text;
          }))
      ≡ ok e
    → IsPlaced source e × (e.edit ≡ edit)
edit_there source path index edit [] e to from h = cc
edit_there source path index edit (m ∷ []) e to from h =
    subst (λ x. IsPlaced source x × (x.edit ≡ edit)) (ok-injective h)
      (
        record {
          there = to m (ground arith);
          extent = refl;
          only = λ i here. ground (arith, from i here);
        },
        refl,
      )
edit_there source path index edit (m ∷ n ∷ ms) e to from h = ground arith

plan_edit-IsPlaced :
    (source path : Text) (index : ℕ) (edit : FilesystemPatchEdit) (e : PlannedPatchEdit)
    → IsExpected edit
    → plan_edit source path index edit ≡ ok e
    → IsPlaced source e × (e.edit ≡ edit)
unfolding plan_edit
plan_edit-IsPlaced source path index edit e nonempty h =
    edit_there source path index edit (find_all_occurrences source edit.old_text) e
      (λ i. (find_all_occurrences_iff source edit.old_text i nonempty).0)
      (λ i. (find_all_occurrences_iff source edit.old_text i nonempty).1) h

plan_edits-IsPlaced :
    (source path : Text) (index : ℕ) (edits : List FilesystemPatchEdit) (es : List PlannedPatchEdit)
    → All IsExpected edits
    → plan_edits source path index edits ≡ ok es
    → All (IsPlaced source) es × (map (λ e. e.edit) es ≡ edits)
unfolding plan_edits
plan_edits-IsPlaced source path index [] es nonempty h =
    subst (λ x. All (IsPlaced source) x × (map (λ e. e.edit) x ≡ [])) (ok-injective h) (tt, refl)
plan_edits-IsPlaced source path index (edit ∷ edits) es (n, nonempty) h =
    let (e, planned, h') = >>=-eq-ok (plan_edit source path index edit) _ h in
    let (rest, all_planned, h'') = >>=-eq-ok (plan_edits source path (index + 1) edits) _ h' in
    let (placed, same) = plan_edit-IsPlaced source path index edit e n planned in
    let (placed', same') =
      plan_edits-IsPlaced source path (index + 1) edits rest nonempty all_planned in
    subst (λ x. All (IsPlaced source) x × (map (λ e. e.edit) x ≡ edit ∷ edits)) (ok-injective h'')
      ((placed, placed'), ap₂ ◌∷◌ same same')

-- The plan's edits follow one another from the cursor on.
abbrev Follow : ℕ → List PlannedPatchEdit → Type 0
Follow cursor [] = Unit
Follow cursor (e ∷ es) = (cursor ≤ e.start) × Follow e.end es

check_overlaps-Follow :
    (path : Text) (e : PlannedPatchEdit) (es : List PlannedPatchEdit)
    → check_overlaps path (e ∷ es) ≡ ok tt
    → Follow e.end es
unfolding check_overlaps
check_overlaps-Follow path e [] h = tt
check_overlaps-Follow path e (f ∷ fs) h =
    let (apart, later) = throw_if-eq-ok (ltb f.start e.end) _ (check_overlaps path (f ∷ fs)) h in
    (ground arith, check_overlaps-Follow path f fs later)

around :
    (source : Text) (cursor : ℕ) (e : PlannedPatchEdit)
    → IsPlaced source e
    → cursor ≤ e.start
    → drop cursor source
      ≡ take (e.start - cursor) (drop cursor source) ++ e.old_text ++ drop e.end source
around source cursor e p le =
    let to_start : cursor + (e.start - cursor) ≡ e.start = omega arith in
    sym (take-append-drop (e.start - cursor) (drop cursor source))
    ∙ ap (λ t. take (e.start - cursor) (drop cursor source) ++ t)
        (drop-drop (e.start - cursor) cursor source
          ∙ rw to_start (
              starts_with-split (drop e.start source) e.old_text p.there
              ∙ ap (λ t. e.old_text ++ t)
                  (drop-drop (length e.old_text) e.start source ∙ rw p.extent)))
    ∙ sym (append_assoc _ e.old_text (drop e.end source))

apply_from-Rewrites :
    (source : Text) (cursor : ℕ) (es : List PlannedPatchEdit)
    → All (IsPlaced source) es
    → Follow cursor es
    → Rewrites es (drop cursor source) (apply_from source cursor es)
unfolding apply_from slice
apply_from-Rewrites source cursor [] placed follow = refl
apply_from-Rewrites source cursor (e ∷ es) (p, placed) (le, follow) =
    let gap = take (e.start - cursor) (drop cursor source) in
    (
      gap,
      drop e.end source,
      apply_from source e.end es,
      around source cursor e p le,
      refl,
      apply_from-Rewrites source e.end es placed follow,
    )

insert_by_start-Perm :
    (e : PlannedPatchEdit) (es : List PlannedPatchEdit) → Perm (insert_by_start e es) (e ∷ es)
unfolding insert_by_start
insert_by_start-Perm e [] = Perm.refl (e ∷ [])
insert_by_start-Perm e (f ∷ fs) = elim (Bool-cases (leb e.start f.start)) [
  | inl before ↦ rw before (Perm.refl (e ∷ f ∷ fs))
  | inr behind ↦ rw behind (Perm.trans (Perm.cons f (insert_by_start-Perm e fs)) (Perm.swap e f fs))
]

sort_by_start-Perm : (es : List PlannedPatchEdit) → Perm (sort_by_start es) es
unfolding sort_by_start
sort_by_start-Perm [] = Perm.refl []
sort_by_start-Perm (e ∷ es) =
    Perm.trans (insert_by_start-Perm e (sort_by_start es)) (Perm.cons e (sort_by_start-Perm es))

insert_by_start-All :
    (P : PlannedPatchEdit → Type 0) (e : PlannedPatchEdit) (es : List PlannedPatchEdit)
    → P e
    → All P es
    → All P (insert_by_start e es)
unfolding insert_by_start
insert_by_start-All P e [] p ps = (p, tt)
insert_by_start-All P e (f ∷ fs) p (q, ps) =
    insert (leb e.start f.start) (insert_by_start-All P e fs p ps)
  where
    insert :
        (b : Bool)
        → All P (insert_by_start e fs)
        → All P (if b then e ∷ f ∷ fs else f ∷ insert_by_start e fs)
    insert true later = (p, (q, ps))
    insert false later = (q, later)

sort_by_start-All :
    (P : PlannedPatchEdit → Type 0) (es : List PlannedPatchEdit)
    → All P es
    → All P (sort_by_start es)
unfolding sort_by_start
sort_by_start-All P [] ps = tt
sort_by_start-All P (e ∷ es) (p, ps) =
    insert_by_start-All P e (sort_by_start es) p (sort_by_start-All P es ps)

checked-Follow :
    (path : Text) (es : List PlannedPatchEdit) → check_overlaps path es ≡ ok tt → Follow 0 es
checked-Follow path [] h = tt
checked-Follow path (e ∷ es) h = (omega arith, check_overlaps-Follow path e es h)

-- What a plan that is not refused holds.
record IsPlan (source : Text) (edits : List FilesystemPatchEdit) (planned : List PlannedPatchEdit)
    : Type 0 where
  placed : All (IsPlaced source) planned
  follow : Follow 0 planned
  same_edits : Perm (map (λ e. e.edit) planned) edits

plan_exact_patch-IsPlan :
    (source path : Text) (edits : List FilesystemPatchEdit) (planned : List PlannedPatchEdit)
    → All IsExpected edits
    → plan_exact_patch source edits path ≡ ok planned
    → IsPlan source edits planned
unfolding plan_exact_patch
plan_exact_patch-IsPlan source path edits planned nonempty h =
    let (es, all_planned, h') = >>=-eq-ok (plan_edits source path 0 edits) _ h in
    let (u, checked, h'') = >>=-eq-ok (check_overlaps path (sort_by_start es)) _ h' in
    let (placed, same) = plan_edits-IsPlaced source path 0 edits es nonempty all_planned in
    subst (IsPlan source edits) (ok-injective h'') (record {
      placed = sort_by_start-All (IsPlaced source) es placed;
      follow = checked-Follow path (sort_by_start es) checked;
      same_edits =
          subst (Perm (map (λ e. e.edit) (sort_by_start es))) same
            (Perm.map (λ e. e.edit) (sort_by_start-Perm es));
    })

-- If the plan of non-empty edits is not refused, then it holds each of the given edits exactly once,
-- in some order; each expected text stands at its planned place and nowhere else in the source;
-- and applying the plan puts the new texts in the places of the expected texts, in the order of
-- the plan, and keeps every other part of the source as it is.
pub plan-apply-Rewrites :
    (source path : Text) (edits : List FilesystemPatchEdit) (planned : List PlannedPatchEdit)
    → All IsExpected edits
    → plan_exact_patch source edits path ≡ ok planned
    → Perm (map (λ e. e.edit) planned) edits
      × All (IsPlaced source) planned
      × Rewrites planned source (apply_planned_patch source planned)
unfolding apply_planned_patch
plan-apply-Rewrites source path edits planned nonempty h =
    let plan = plan_exact_patch-IsPlan source path edits planned nonempty h in
    (plan.same_edits, plan.placed, apply_from-Rewrites source 0 planned plan.placed plan.follow)
