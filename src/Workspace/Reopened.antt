-- ===== src/Workspace/Reopened.antt =====
-- A directory that is opened twice, packages/workspace/src/index.ts.
use mathlib.Core.Option
use benchhand.Prelude.{
  ok-injective, Bool, true, Option, none, some, List, [], ◌∷◌, ◌++◌, ◌+◌, ◌≡◌, refl, arith,
  Bool-cases, inl, inr, find, any, Result, ok, err, if◌then◌else◌, ap, sym, ◌∙◌, subst,
}
use benchhand.Prelude.Text.{Text, text_eq_refl}
use benchhand.Contracts.Value.{Value}
use benchhand.Contracts.Schema.{WorkspaceMode, checkout, available}
use benchhand.Storage.Table.{update_where, find-update_where}
use benchhand.Workspace.Directories.{RegistryFailure}
use benchhand.Workspace.Registry.{
  WorkspaceRow, Registry, has_workspace_id, same_place, same_mode, row_to_workspace_record,
}
use benchhand.Workspace.Checkouts.{
  RegistryContext, touch, placed_row, upsert_workspace, upserted, open_located, open_checkout,
  located_row,
}
use benchhand.Workspace.Invariants.Calls.{located_row-IsNew}

-- The row that stands at the place of another one.
abbrev pub row_at_place : WorkspaceRow → Registry → Option WorkspaceRow
row_at_place row r =
    find (same_place row.canonical_path row.filesystem_identity row.mode) r.workspaces

find-append-last :
    (p : WorkspaceRow → Bool) (rows : List WorkspaceRow) (row : WorkspaceRow)
    → find p rows ≡ none
    → p row ≡ true
    → find p (rows ++ row ∷ []) ≡ some row
find-append-last p [] row h k = ground arith
find-append-last p (r ∷ rows) row h k = ground (arith, find-append-last p rows row)

same_mode_refl : (mode : WorkspaceMode) → same_mode mode mode ≡ true
unfolding same_mode
same_mode_refl checkout = refl
same_mode_refl WorkspaceMode.worktree = refl

same_place_refl :
    (row : WorkspaceRow) → same_place row.canonical_path row.filesystem_identity row.mode row ≡ true
same_place_refl row = ground (
  arith,
  text_eq_refl row.canonical_path,
  text_eq_refl row.filesystem_identity,
  same_mode_refl row.mode,
)

find-true :
    (p : WorkspaceRow → Bool) (rows : List WorkspaceRow) (row : WorkspaceRow)
    → find p rows ≡ some row
    → p row ≡ true
find-true p [] row h = absurd cc
find-true p (r ∷ rows) row h = ground (arith, find-true p rows row)

find-touched :
    (new old : WorkspaceRow) (rows : List WorkspaceRow)
    → find (same_place new.canonical_path new.filesystem_identity new.mode) rows ≡ some old
    → find (same_place new.canonical_path new.filesystem_identity new.mode) (
        update_where
          (same_place new.canonical_path new.filesystem_identity new.mode)
          (touch new)
          rows)
      ≡ some (touch new old)
unfolding touch
find-touched new old rows found =
    let place = same_place new.canonical_path new.filesystem_identity new.mode in
    let here = find-true place rows old found in
    find-update_where place place (touch new) rows (λ r. refl)
    ∙ ap (Option.map (λ r. if place r then touch new r else r)) found
    ∙ ap (λ b. some (if b then touch new old else old)) here

placed_row-at :
    (new : WorkspaceRow) (found : Option WorkspaceRow) (rows : List WorkspaceRow)
    (row : WorkspaceRow)
    → find (same_place new.canonical_path new.filesystem_identity new.mode) rows ≡ found
    → (placed_row new found rows).0 ≡ ok row
    → find
        (same_place new.canonical_path new.filesystem_identity new.mode)
        (placed_row new found rows).1
      ≡ some row
unfolding placed_row touch
placed_row-at new (some old) rows row found returns =
    find-touched new old rows found ∙ ap some (ok-injective returns)
placed_row-at new none rows row found returns =
    elim (Bool-cases (any (has_workspace_id new.workspace_id) rows)) [
      | inl taken ↦ absurd (ground arith)
      | inr free ↦
          let same : new ≡ row = ground arith in
          rw free (
            subst
              (λ w.
                find (same_place new.canonical_path new.filesystem_identity new.mode)
                  (rows ++ new ∷ [])
                ≡ some w)
              same
              (find-append-last (same_place new.canonical_path new.filesystem_identity new.mode)
                rows new found (same_place_refl new)))
    ]

upserted-at :
    (context : RegistryContext) (new : WorkspaceRow) (r : Registry) (v : Value)
    (p : Result RegistryFailure WorkspaceRow × List WorkspaceRow)
    → ((row : WorkspaceRow)
        → p.0 ≡ ok row
        → find (same_place new.canonical_path new.filesystem_identity new.mode) p.1 ≡ some row)
    → (upserted context r p).0 ≡ ok v
    → (row : WorkspaceRow) × (row_at_place new (upserted context r p).1 ≡ some row)
      × (row_to_workspace_record context.check context.as_string row ≡ ok v)
unfolding upserted
upserted-at context new r v (err e, rows) at returns = absurd (ground arith)
upserted-at context new r v (ok row, rows) at returns = (row, at row refl, returns)

open_located-at :
    (context : RegistryContext) (new : WorkspaceRow) (r : Registry) (v : Value)
    → (open_located context (ok new) r).0 ≡ ok v
    → (row : WorkspaceRow) × (row_at_place new (open_located context (ok new) r).1 ≡ some row)
      × (row_to_workspace_record context.check context.as_string row ≡ ok v)
unfolding open_located upsert_workspace
open_located-at context new r v returns =
    upserted-at context new r v _
      (λ row h. placed_row-at new (row_at_place new r) r.workspaces row refl h) returns

row_at_place-same :
    (new new' : WorkspaceRow) (r : Registry)
    → new'.canonical_path ≡ new.canonical_path
    → new'.filesystem_identity ≡ new.filesystem_identity
    → new'.mode ≡ new.mode
    → row_at_place new' r ≡ row_at_place new r
row_at_place-same new new' r same_path same_identity same_mode' =
    ap (λ c. find (same_place c new'.filesystem_identity new'.mode) r.workspaces) same_path
    ∙ ap (λ i. find (same_place new.canonical_path i new'.mode) r.workspaces) same_identity
    ∙ ap (λ m. find (same_place new.canonical_path new.filesystem_identity m) r.workspaces)
        same_mode'

-- A row that is put in where one stands.
open_located-again :
    (context : RegistryContext) (new row : WorkspaceRow) (r : Registry)
    → row_at_place new r ≡ some row
    → open_located context (ok new) r ≡ (
      row_to_workspace_record context.check context.as_string (touch new row),
      record r {
        workspaces =
            update_where
              (same_place new.canonical_path new.filesystem_identity new.mode)
              (touch new)
              r.workspaces;
      },
    )
unfolding open_located upsert_workspace upserted placed_row
open_located-again context new row r at =
    ap (λ found. upserted context r (placed_row new found r.workspaces)) at

module _ (context later : RegistryContext) (requested again : Text) (r : Registry)
    (new new' : WorkspaceRow) (v : Value) where
  -- A directory that `open` has returned in checkout mode keeps its id: when it is opened once more,
  -- by another path or a later daemon perhaps, its row stands at the same place, with the id and
  -- the creation time that it had, a version one higher, the new path and the status available, and
  -- that row is the answer.
  pub open_checkout_again :
      located_row context requested ≡ ok new
      → located_row later again ≡ ok new'
      → new'.canonical_path ≡ new.canonical_path
      → new'.filesystem_identity ≡ new.filesystem_identity
      → (open_checkout context requested none r).0 ≡ ok v
      → (row row' : WorkspaceRow) × (row_at_place new (open_checkout context requested none r).1
          ≡ some row)
        × (row_to_workspace_record context.check context.as_string row ≡ ok v)
        × (row_at_place new
              (open_checkout later again none (open_checkout context requested none r).1).1
            ≡ some row')
        × (row'.workspace_id ≡ row.workspace_id)
        × (row'.created_at ≡ row.created_at)
        × (row'.metadata_version ≡ row.metadata_version + 1)
        × (row'.requested_path ≡ later.disk.resolve_path again)
        × (row'.status ≡ available)
        × ((open_checkout later again none (open_checkout context requested none r).1).0
            ≡ row_to_workspace_record later.check later.as_string row')
  unfolding open_checkout touch
  open_checkout_again locates locates' same_path same_identity returns =
      let first = open_checkout context requested none r in
      let opens : open_located context (ok new) r ≡ first =
        ap (λ located. open_located context located r) (sym locates) in
      let (row, at, reads) = open_located-at context new r v (ap (λ p. p.0) opens ∙ returns) in
      let at_first : row_at_place new first.1 ≡ some row =
        ap (λ p. row_at_place new p.1) (sym opens) ∙ at in
      let (_, new_mode, _) = located_row-IsNew context requested new locates in
      let (_, new_mode', new_path') = located_row-IsNew later again new' locates' in
      let same =
        row_at_place-same new new' first.1 same_path same_identity (new_mode' ∙ sym new_mode) in
      let again_opens = open_located-again later new' row first.1 (same ∙ at_first) in
      let second : open_checkout later again none first.1 ≡ open_located later (ok new') first.1 =
        ap (λ located. open_located later located first.1) locates' in
      let whole = second ∙ again_opens in
      (
        row,
        touch new' row,
        at_first,
        reads,
        sym (
              row_at_place-same new new' (open_checkout later again none first.1).1 same_path
                same_identity (new_mode' ∙ sym new_mode))
            ∙ ap (λ p. row_at_place new' p.1) whole
            ∙ find-touched new' row first.1.workspaces (same ∙ at_first),
        refl,
        refl,
        refl,
        new_path',
        refl,
        ap (λ p. p.0) whole,
      )
