-- ===== src/Workspace/Invariants/Registered.antt =====
-- The rows of a managed worktree, packages/workspace/src/index.ts.
use benchhand.Prelude.{
  Bool, true, false, ◌||◌, Option, some, [], ◌∷◌, ◌++◌, ◌+◌, ◌≤◌, any, All-append, ◌≡◌, refl, inl,
  inr, arith, if◌then◌else◌, Bool-cases, subst, ap,
}
use benchhand.Prelude.Text.{Text, text_eq, text_eq_refl, text_eq_iff}
use benchhand.Storage.Table.{
  update_where, count_where, All-update_where, count_where-append, count_where-update_where,
  count_where-of-any, any-last,
}
use benchhand.Workspace.Directories.{WorkspaceDirectory}
use benchhand.Workspace.Registry.{
  ManagedWorktreeRow, JournalAction, create_intent, created, reconciled, Registry, has_workspace_id,
  has_ownership_key, append_worktree_journal, has_worktree_journal_action,
}
use benchhand.Workspace.Checkouts.{RegistryContext}
use benchhand.Workspace.Worktrees.{
  ManagedWorktreeRegistration, worktree_row, managed_row, workspace_taken, managed_taken,
  insert_rows, insert_registration,
}
use benchhand.Workspace.Invariants.{
  IsSound, IsOwned, insert-IsSound, append_worktree_journal-IsSound, has_action-last,
}

managed_insert-IsSound :
    (row : ManagedWorktreeRow) (r : Registry)
    → any (has_ownership_key row.ownership_key) r.managed ≡ false
    → IsOwned r row
    → IsSound r
    → IsSound (record r { managed = r.managed ++ row ∷ [] })
unfolding has_worktree_journal_action
managed_insert-IsSound row r free owned sound = record {
  ids = sound.ids;
  places = sound.places;
  versions = sound.versions;
  keys = λ key. rw (count_where-append (has_ownership_key key) r.managed row) (one_key key);
  owned = All-append (IsOwned r) r.managed (row ∷ []) sound.owned (owned, tt);
  intended = sound.intended;
}
  where
    one_key :
        (key : Text)
        → count_where (has_ownership_key key) r.managed
            + (if has_ownership_key key row then 1 else 0)
          ≤ 1
    one_key key = elim (Bool-cases (text_eq row.ownership_key key)) [
      | inl same ↦
          let none_yet = count_where-of-any (has_ownership_key row.ownership_key) r.managed free in
          let here : count_where (has_ownership_key key) r.managed ≡ 0 =
            subst (λ x. count_where (has_ownership_key x) r.managed ≡ 0)
              ((text_eq_iff row.ownership_key key).0 same) none_yet in
          ground (arith, here)
      | inr other ↦ ground (arith, sound.keys key)
    ]

-- An UPDATE of the managed rows that keeps their keys and their workspaces.
pub managed_update-IsSound :
    (p : ManagedWorktreeRow → Bool) (f : ManagedWorktreeRow → ManagedWorktreeRow) (r : Registry)
    → ((row : ManagedWorktreeRow) → (f row).ownership_key ≡ row.ownership_key)
    → ((row : ManagedWorktreeRow) → (f row).managed_workspace_id ≡ row.managed_workspace_id)
    → IsSound r
    → IsSound (record r { managed = update_where p f r.managed })
unfolding has_worktree_journal_action
managed_update-IsSound p f r same_key same_workspace sound = record {
  ids = sound.ids;
  places = sound.places;
  versions = sound.versions;
  keys = λ key.
      rw
        (count_where-update_where (has_ownership_key key) p f r.managed
          (λ row. ap (λ x. text_eq x key) (same_key row)))
        (sound.keys key);
  owned =
      All-update_where (IsOwned r) p f r.managed
        (λ row h owned. (rw (same_workspace row) owned.0, rw (same_key row) owned.1)) sound.owned;
  intended = sound.intended;
}

-- A call of Git behind a recorded intent.
pub creation-IsSound :
    (key : Text) (r : Registry)
    → has_worktree_journal_action key create_intent r ≡ true
    → IsSound r
    → IsSound (record r { creations = key ∷ r.creations })
unfolding has_worktree_journal_action
creation-IsSound key r intended sound = record {
  ids = sound.ids;
  places = sound.places;
  versions = sound.versions;
  keys = sound.keys;
  owned = sound.owned;
  intended = (intended, sound.intended);
}

or-false : (a b : Bool) → (a || b) ≡ false → (a ≡ false) × (b ≡ false)
or-false true b h = absurd cc
or-false false b h = (refl, h)

or-left : (a b : Bool) → a ≡ true → (a || b) ≡ true
or-left a b h = ground arith

or-right : (a b : Bool) → b ≡ true → (a || b) ≡ true
or-right a b h = ground arith

-- The events of a registration.
abbrev pub registers : JournalAction → Bool
registers created = true
registers reconciled = true
registers _ = false

registered_event :
    (key : Text) (workspace : Option Text) (action : JournalAction) (r : Registry)
    → registers action ≡ true
    → (has_worktree_journal_action key created (append_worktree_journal key workspace action r)
        || has_worktree_journal_action key reconciled
            (append_worktree_journal key workspace action r))
      ≡ true
registered_event key workspace created r h = or-left _ _ (has_action-last key workspace created r)
registered_event key workspace reconciled r h =
    or-right _ _ (has_action-last key workspace reconciled r)
registered_event key workspace _ r h = absurd cc

module _ (context : RegistryContext) (registration : ManagedWorktreeRegistration) where
  insert_rows-IsSound :
      (taken : Bool) (action : JournalAction) (directory : WorkspaceDirectory) (r : Registry)
      → (workspace_taken context registration (worktree_row context registration directory) r
          || managed_taken context registration (managed_row context registration directory) r)
        ≡ taken
      → registers action ≡ true
      → IsSound r
      → IsSound (insert_rows context registration taken action directory r).1
  unfolding insert_rows workspace_taken managed_taken worktree_row managed_row
      append_worktree_journal has_worktree_journal_action
  insert_rows-IsSound true action directory r taken registering sound = sound
  insert_rows-IsSound false action directory r free registering sound =
      let positive : 1 ≤ 1 = omega arith in
      let row = worktree_row context registration directory in
      let (free_row, free_managed) = or-false _ _ free in
      let (free_id, free_place) = or-false _ _ free_row in
      let (free_key, _) = or-false _ _ free_managed in
      let inserted = insert-IsSound row r free_id free_place positive sound in
      let r1 = record r { workspaces = r.workspaces ++ row ∷ [] } in
      let journaled =
        append_worktree_journal-IsSound registration.key (some context.candidate_id) action r1
          inserted in
      let there =
        any-last (has_workspace_id context.candidate_id) r.workspaces row
          (text_eq_refl context.candidate_id) in
      let event =
        registered_event registration.key (some context.candidate_id) action r1 registering in
      managed_insert-IsSound (managed_row context registration directory)
        (append_worktree_journal registration.key (some context.candidate_id) action r1) free_key
        (there, event) journaled

  pub insert_registration-IsSound :
      (action : JournalAction) (directory : WorkspaceDirectory) (r : Registry)
      → registers action ≡ true
      → IsSound r
      → IsSound (insert_registration context registration action directory r).1
  unfolding insert_registration
  insert_registration-IsSound action directory r registering sound =
      insert_rows-IsSound _ action directory r refl registering sound
