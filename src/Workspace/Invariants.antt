-- ===== src/Workspace/Invariants.antt =====
-- What holds of the tables of packages/workspace/src/index.ts between two statements.
pub mod Calls
pub mod Kept
pub mod Opened
pub mod Registered
use benchhand.Prelude.{
  ℕ, suc, Bool, true, false, ◌&&◌, ◌||◌, Option, none, some, List, [], ◌∷◌, ◌++◌, ◌+◌, ◌≤◌, find,
  any, All, All-map, All-append, ◌≡◌, refl, arith, if◌then◌else◌, Bool-cases, inl, inr, sym, subst,
  ap, ◌∙◌,
}
use benchhand.Prelude.Text.{Text, text_eq, text_eq_refl, text_eq_iff}
use benchhand.Contracts.Schema.{WorkspaceMode, checkout, worktree}
use benchhand.Storage.Table.{
  update_where, count_where, All-update_where, count_where-append, count_where-update_where,
  count_where-of-none, count_where-of-any, any-update_where, any-append, any-last,
}
use benchhand.Workspace.Registry.{
  WorkspaceRow, ManagedWorktreeRow, WorktreeEvent, JournalAction, create_intent, created,
  reconciled, Registry, has_workspace_id, same_place, same_mode, has_ownership_key,
  append_worktree_journal, has_worktree_journal_action, same_action,
}

-- A registration is complete: its workspace is there and its event is in the journal.
abbrev pub IsOwned : Registry → ManagedWorktreeRow → Type 0
IsOwned r row =
    (any (has_workspace_id row.managed_workspace_id) r.workspaces ≡ true)
    × ((has_worktree_journal_action row.ownership_key created r
          || has_worktree_journal_action row.ownership_key reconciled r)
        ≡ true)

-- Ids, places and ownership keys are unique; versions are positive; a managed worktree has its
-- workspace and its event; Git was only called to make a worktree behind a recorded intent.
pub record IsSound (r : Registry) : Type 0 where
  pub ids : (id : Text) → count_where (has_workspace_id id) r.workspaces ≤ 1
  pub places :
      (canonical identity : Text) (mode : WorkspaceMode)
      → count_where (same_place canonical identity mode) r.workspaces ≤ 1
  pub versions : All (λ row. 1 ≤ row.metadata_version) r.workspaces
  pub keys : (key : Text) → count_where (has_ownership_key key) r.managed ≤ 1
  pub owned : All (IsOwned r) r.managed
  pub intended : All (λ key. has_worktree_journal_action key create_intent r ≡ true) r.creations

-- An UPDATE of rows that keeps the columns of the unique constraints.
pub update-IsSound :
    (p : WorkspaceRow → Bool) (f : WorkspaceRow → WorkspaceRow) (r : Registry)
    → ((row : WorkspaceRow) → (f row).workspace_id ≡ row.workspace_id)
    → ((canonical identity : Text) (mode : WorkspaceMode) (row : WorkspaceRow)
        → same_place canonical identity mode (f row) ≡ same_place canonical identity mode row)
    → ((row : WorkspaceRow) → 1 ≤ (f row).metadata_version)
    → IsSound r
    → IsSound (record r { workspaces = update_where p f r.workspaces })
unfolding has_worktree_journal_action
update-IsSound p f r same_id places_kept counts sound = record {
  ids = λ id.
      rw
        (count_where-update_where (has_workspace_id id) p f r.workspaces
          (λ row. ap (λ x. text_eq x id) (same_id row)))
        (sound.ids id);
  places = λ canonical identity mode.
      rw
        (count_where-update_where (same_place canonical identity mode) p f r.workspaces
          (places_kept canonical identity mode))
        (sound.places canonical identity mode);
  versions =
      All-update_where (λ row. 1 ≤ row.metadata_version) p f r.workspaces (λ row h k. counts row)
        sound.versions;
  keys = sound.keys;
  owned =
      All-map (IsOwned r) (IsOwned (record r { workspaces = update_where p f r.workspaces }))
        r.managed
        (λ row h. (
          rw
              (any-update_where (has_workspace_id row.managed_workspace_id) p f r.workspaces
                (λ w. ap (λ x. text_eq x row.managed_workspace_id) (same_id w)))
              h.0,
          h.1,
        ))
        sound.owned;
  intended = sound.intended;
}

same_mode-≡ : (m n : WorkspaceMode) → same_mode m n ≡ true → m ≡ n
unfolding same_mode
same_mode-≡ checkout checkout h = refl
same_mode-≡ checkout worktree h = absurd cc
same_mode-≡ worktree checkout h = absurd cc
same_mode-≡ worktree worktree h = refl

and-true : (a b : Bool) → (a && b) ≡ true → (a ≡ true) × (b ≡ true)
and-true true b h = (refl, h)
and-true false b h = absurd cc

-- Rows at the place of a row are counted at that place.
same_place-count :
    (row : WorkspaceRow) (canonical identity : Text) (mode : WorkspaceMode)
    (rows : List WorkspaceRow)
    → same_place canonical identity mode row ≡ true
    → count_where (same_place row.canonical_path row.filesystem_identity row.mode) rows
      ≡ count_where (same_place canonical identity mode) rows
same_place-count row canonical identity mode rows same =
    let (at_path, rest) = and-true _ _ same in
    let (at_identity, in_mode) = and-true _ _ rest in
    ap (λ c. count_where (same_place c row.filesystem_identity row.mode) rows)
      ((text_eq_iff row.canonical_path canonical).0 at_path)
    ∙ ap (λ i. count_where (same_place canonical i row.mode) rows)
        ((text_eq_iff row.filesystem_identity identity).0 at_identity)
    ∙ ap (λ m. count_where (same_place canonical identity m) rows)
        (same_mode-≡ row.mode mode in_mode)

-- An INSERT of a row whose id and place are free.
pub insert-IsSound :
    (row : WorkspaceRow) (r : Registry)
    → any (has_workspace_id row.workspace_id) r.workspaces ≡ false
    → any (same_place row.canonical_path row.filesystem_identity row.mode) r.workspaces ≡ false
    → 1 ≤ row.metadata_version
    → IsSound r
    → IsSound (record r { workspaces = r.workspaces ++ row ∷ [] })
unfolding has_worktree_journal_action
insert-IsSound row r free_id free_place positive sound = record {
  ids = λ id. rw (count_where-append (has_workspace_id id) r.workspaces row) (one_id id);
  places = λ canonical identity mode.
      rw (count_where-append (same_place canonical identity mode) r.workspaces row)
        (one_place canonical identity mode);
  versions =
      All-append (λ row. 1 ≤ row.metadata_version) r.workspaces (row ∷ []) sound.versions
        (positive, tt);
  keys = sound.keys;
  owned =
      All-map (IsOwned r) (IsOwned (record r { workspaces = r.workspaces ++ row ∷ [] })) r.managed
        (λ m h. (any-append (has_workspace_id m.managed_workspace_id) r.workspaces _ h.0, h.1))
        sound.owned;
  intended = sound.intended;
}
  where
    one_id :
        (id : Text)
        → count_where (has_workspace_id id) r.workspaces
            + (if has_workspace_id id row then 1 else 0)
          ≤ 1
    one_id id = elim (Bool-cases (text_eq row.workspace_id id)) [
      | inl same ↦
          let none_yet =
            count_where-of-any (has_workspace_id row.workspace_id) r.workspaces free_id in
          let here : count_where (has_workspace_id id) r.workspaces ≡ 0 =
            subst (λ x. count_where (has_workspace_id x) r.workspaces ≡ 0)
              ((text_eq_iff row.workspace_id id).0 same) none_yet in
          ground (arith, here)
      | inr other ↦ ground (arith, sound.ids id)
    ]

    one_place :
        (canonical identity : Text) (mode : WorkspaceMode)
        → count_where (same_place canonical identity mode) r.workspaces
            + (if same_place canonical identity mode row then 1 else 0)
          ≤ 1
    one_place canonical identity mode = elim (Bool-cases (same_place canonical identity mode row)) [
      | inl same ↦
          let none_yet =
            count_where-of-any (same_place row.canonical_path row.filesystem_identity row.mode)
              r.workspaces free_place in
          let here = same_place-count row canonical identity mode r.workspaces same in
          ground (arith, here, none_yet)
      | inr other ↦ ground (arith, sound.places canonical identity mode)
    ]

has_action-append :
    (key key' : Text) (workspace : Option Text) (action action' : JournalAction) (r : Registry)
    → has_worktree_journal_action key action r ≡ true
    → has_worktree_journal_action key action (append_worktree_journal key' workspace action' r)
      ≡ true
unfolding has_worktree_journal_action append_worktree_journal
has_action-append key key' workspace action action' r h = any-append _ r.journal _ h

same_action_refl : (action : JournalAction) → same_action action action ≡ true
unfolding same_action
same_action_refl create_intent = refl
same_action_refl created = refl
same_action_refl JournalAction.create_failed = refl
same_action_refl JournalAction.cleanup_intent = refl
same_action_refl JournalAction.cleaned = refl
same_action_refl JournalAction.cleanup_failed = refl
same_action_refl reconciled = refl

pub has_action-last :
    (key : Text) (workspace : Option Text) (action : JournalAction) (r : Registry)
    → has_worktree_journal_action key action (append_worktree_journal key workspace action r) ≡ true
unfolding has_worktree_journal_action append_worktree_journal
has_action-last key workspace action r =
    any-last _ r.journal _ (ground (arith, text_eq_refl key, same_action_refl action))

or_mono :
    (a b a' b' : Bool)
    → (a ≡ true → a' ≡ true)
    → (b ≡ true → b' ≡ true)
    → (a || b) ≡ true
    → (a' || b') ≡ true
or_mono a b a' b' f g h = ground arith

-- An event more in the journal.
pub append_worktree_journal-IsSound :
    (key : Text) (workspace : Option Text) (action : JournalAction) (r : Registry)
    → IsSound r
    → IsSound (append_worktree_journal key workspace action r)
unfolding append_worktree_journal
append_worktree_journal-IsSound key workspace action r sound = record {
  ids = sound.ids;
  places = sound.places;
  versions = sound.versions;
  keys = sound.keys;
  owned =
      All-map (IsOwned r) (IsOwned (append_worktree_journal key workspace action r)) r.managed
        (λ m h. (
          h.0,
          or_mono _ _ _ _ (has_action-append m.ownership_key key workspace created action r)
              (has_action-append m.ownership_key key workspace reconciled action r) h.1,
        ))
        sound.owned;
  intended =
      All-map (λ k. has_worktree_journal_action k create_intent r ≡ true)
        (λ k.
          has_worktree_journal_action k create_intent
            (append_worktree_journal key workspace action r)
          ≡ true)
        r.creations (λ k h. has_action-append k key workspace create_intent action r h)
        sound.intended;
}
