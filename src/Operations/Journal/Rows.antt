-- ===== src/Operations/Journal/Rows.antt =====
-- What each statement of the journal does to the row of one id. The table is keyed: no id has two
-- rows.
use mathlib.Core.Option
use benchhand.Prelude.{
  ℕ, ◌+◌, ◌≤◌, String, Bool, false, ◌&&◌, Option, none, some, [], ◌∷◌, ◌++◌, ◌≡◌, refl, arith,
  if◌then◌else◌, str_eq, str_eq_iff, find, ok, err, ap, ◌∙◌, inl, inr, Option-cases,
}
use benchhand.Contracts.Schema.{OperationState, Thrown}
use benchhand.Storage.Table.{update_where, count_where, find-update_where, count_where-append}
use benchhand.Operations.Record.{OperationRow, OperationRequest}
use benchhand.Operations.Journal.{
  Journal, has_id, same_state, is_interrupted, transition, insert_row, new_row,
  reconcile_interrupted,
}

abbrev pub row_at : {T : Type 0} → String → Journal T → Option (OperationRow T)
row_at operation_id rows = find (has_id operation_id) rows

abbrev pub count_at : {T : Type 0} → String → Journal T → ℕ
count_at operation_id rows = count_where (has_id operation_id) rows

pub record IsKeyed {T : Type 0} (rows : Journal T) : Type 0 where
  pub at_most_one : (operation_id : String) → count_at operation_id rows ≤ 1

-- The row is there and in this state.
abbrev pub is_at : {T : Type 0} → OperationState → Option (OperationRow T) → Bool
is_at from none = false
is_at from (some row) = same_state row.state from

module _ {T : Type 0} where
  row_at-append :
      (id : String) (rows : Journal T) (row : OperationRow T)
      → row_at id (rows ++ row ∷ []) ≡ elim (row_at id rows) [
        | none ↦ (if has_id id row then some row else none)
        | some r ↦ some r
      ]
  row_at-append id [] row = refl
  row_at-append id (r ∷ rows) row = ground (arith, row_at-append id rows row)

  count_at_of_none : (id : String) (rows : Journal T) → row_at id rows ≡ none → count_at id rows ≡ 0
  unfolding count_where
  count_at_of_none id [] h = refl
  count_at_of_none id (r ∷ rows) h = ground (arith, count_at_of_none id rows)

  count_at-update_where :
      (id : String) (p : OperationRow T → Bool) (f : OperationRow T → OperationRow T)
      (rows : Journal T)
      → ((r : OperationRow T) → (f r).operation_id ≡ r.operation_id)
      → count_at id (update_where p f rows) ≡ count_at id rows
  unfolding count_where update_where
  count_at-update_where id p f [] same = refl
  count_at-update_where id p f (r ∷ rows) same =
      ground (arith, count_at-update_where id p f rows same, same r)

  pub update_where-IsKeyed :
      (p : OperationRow T → Bool) (f : OperationRow T → OperationRow T) (rows : Journal T)
      → ((r : OperationRow T) → (f r).operation_id ≡ r.operation_id)
      → IsKeyed rows
      → IsKeyed (update_where p f rows)
  update_where-IsKeyed p f rows same keyed = record {
    at_most_one = λ id. rw (count_at-update_where id p f rows same) (keyed.at_most_one id);
  }

  count_where-le :
      (id : String) (p : OperationRow T → Bool) (rows : Journal T)
      → count_where (λ row. has_id id row && p row) rows ≤ count_at id rows
  unfolding count_where
  count_where-le id p [] = omega arith
  count_where-le id p (r ∷ rows) = ground (arith, count_where-le id p rows)

  count_of_state :
      (id : String) (from : OperationState) (rows : Journal T)
      → count_at id rows ≤ 1
      → count_where (λ row. has_id id row && same_state row.state from) rows
        ≡ (if is_at from (row_at id rows) then 1 else 0)
  unfolding count_where
  count_of_state id from [] h = refl
  count_of_state id from (r ∷ rows) h = ground (
    arith,
    count_of_state id from rows,
    count_where-le id (λ row. same_state row.state from) rows,
  )

  pub row_at-operation_id :
      (id : String) (rows : Journal T) (row : OperationRow T)
      → row_at id rows ≡ some row
      → row.operation_id ≡ id
  row_at-operation_id id [] row h = cc
  row_at-operation_id id (r ∷ rows) row h =
      ground (arith, row_at-operation_id id rows row, str_eq_iff r.operation_id id)

  -- The row of `j` after the statement on the row of `id`.
  abbrev pub changed_row :
      String
      → String
      → OperationState
      → (OperationRow T → OperationRow T)
      → Option (OperationRow T)
      → Option (OperationRow T)
  changed_row id j from change found =
      Option.map
        (λ row.
          if str_eq id j then (if same_state row.state from then change row else row) else row)
        found

  changed_row_of_id :
      (id j : String) (from : OperationState) (change : OperationRow T → OperationRow T)
      (row : OperationRow T)
      → row.operation_id ≡ j
      → (if has_id id row && same_state row.state from then change row else row)
        ≡ (if str_eq id j then (if same_state row.state from then change row else row) else row)
  changed_row_of_id id j from change row h =
      ground (arith, str_eq_iff row.operation_id id, str_eq_iff id j)

  module _ (id : String) (from : OperationState) (e : Thrown)
      (change : OperationRow T → OperationRow T)
      (same : (r : OperationRow T) → (change r).operation_id ≡ r.operation_id)
      (rows : Journal T) where
    pub transition-row_at :
        (j : String)
        → row_at j (transition id from e change rows).1
          ≡ changed_row id j from change (row_at j rows)
    unfolding transition
    transition-row_at j =
        find-update_where (has_id j) (λ row. has_id id row && same_state row.state from) change rows
          (λ r. ap (λ k. str_eq k j) (same r))
        ∙ elim (Option-cases (row_at j rows)) [
          | inl absent ↦ rw absent
          | inr found ↦ rw found.1 (
              ap some (
                changed_row_of_id id j from change found.0
                  (row_at-operation_id j rows found.0 found.1)))
        ]

    pub transition-IsKeyed : IsKeyed rows → IsKeyed (transition id from e change rows).1
    unfolding transition
    transition-IsKeyed keyed =
        update_where-IsKeyed (λ row. has_id id row && same_state row.state from) change rows same
          keyed

    -- The statement succeeds exactly when the row is there and in the state that it starts from.
    pub transition-result :
        IsKeyed rows
        → (transition id from e change rows).0
          ≡ (if is_at from (row_at id rows) then ok tt else err e)
    unfolding transition
    transition-result keyed = ground (arith, count_of_state id from rows (keyed.at_most_one id))

  pub transition_absent :
      (id : String) (from : OperationState) (e : Thrown) (change : OperationRow T → OperationRow T)
      (rows : Journal T)
      → row_at id rows ≡ none
      → (transition id from e change rows).0 ≡ err e
  unfolding transition
  transition_absent id from e change rows h =
      ground
        (arith, count_where-le id (λ row. same_state row.state from) rows, count_at_of_none id rows)

  pub insert_row-IsKeyed :
      (request : OperationRequest) (rows : Journal T)
      → IsKeyed rows
      → IsKeyed (insert_row request rows).1
  unfolding insert_row
  insert_row-IsKeyed request rows keyed = record {
    at_most_one = λ id. ground (
      arith,
      keyed.at_most_one id,
      count_where-append (has_id id) rows (new_row request),
      count_at_of_none id rows,
      str_eq_iff request.operation_id id,
    );
  }

  pub insert_row-row_at :
      (request : OperationRequest) (rows : Journal T) (j : String)
      → row_at request.operation_id rows ≡ none
      → row_at j (insert_row request rows).1
        ≡ (if str_eq request.operation_id j then some (new_row request) else row_at j rows)
  unfolding insert_row
  insert_row-row_at request rows j h =
      ground (arith, h, row_at-append j rows (new_row request), str_eq_iff request.operation_id j)

  abbrev pub interrupted_row : OperationRow T → OperationRow T
  interrupted_row row =
      if is_interrupted row
      then record row { state = OperationState.unknown_needs_reconcile; version = row.version + 1 }
      else row

  pub reconcile_interrupted-row_at :
      (rows : Journal T) (j : String)
      → row_at j (reconcile_interrupted rows).1 ≡ Option.map interrupted_row (row_at j rows)
  unfolding reconcile_interrupted
  reconcile_interrupted-row_at rows j =
      find-update_where (has_id j) is_interrupted
        (λ row. record row {
          state = OperationState.unknown_needs_reconcile;
          version = row.version + 1;
        })
        rows (λ r. refl)

  pub reconcile_interrupted-IsKeyed :
      (rows : Journal T) → IsKeyed rows → IsKeyed (reconcile_interrupted rows).1
  unfolding reconcile_interrupted
  reconcile_interrupted-IsKeyed rows keyed =
      update_where-IsKeyed is_interrupted
        (λ row. record row {
          state = OperationState.unknown_needs_reconcile;
          version = row.version + 1;
        })
        rows (λ r. refl) keyed
