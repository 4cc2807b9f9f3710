-- ===== src/Storage/Table.antt =====
-- A table as the list of its rows, the statements that the program runs on one, and
-- `SqliteDatabase.transaction`.
use benchhand.Prelude.{
  ℕ, suc, Bool, true, false, List, [], ◌∷◌, ◌≡◌, refl, arith, none, ◌++◌, ◌+◌, any, if◌then◌else◌,
  find, All, Result, ok, err, Exec,
}
use mathlib.Core.Option

module _ {R : Type 0} where
  -- UPDATE … SET … WHERE …
  unfoldable pub update_where : (R → Bool) → (R → R) → List R → List R
  update_where p f [] = []
  update_where p f (r ∷ rows) = (if p r then f r else r) ∷ update_where p f rows

  -- `result.changes` of that statement
  unfoldable pub count_where : (R → Bool) → List R → ℕ
  count_where p [] = 0
  count_where p (r ∷ rows) = if p r then suc (count_where p rows) else count_where p rows

  -- The row that a SELECT by key finds after an UPDATE that leaves the keys alone.
  pub find-update_where :
      (key p : R → Bool) (f : R → R) (rows : List R)
      → ((r : R) → key (f r) ≡ key r)
      → find key (update_where p f rows) ≡ Option.map (λ r. if p r then f r else r) (find key rows)
  unfolding update_where
  find-update_where key p f [] same = refl
  find-update_where key p f (r ∷ rows) same =
      ground (arith, find-update_where key p f rows same, same r)

  pub All-update_where :
      (P : R → Type 0) (p : R → Bool) (f : R → R) (rows : List R)
      → ((r : R) → p r ≡ true → P r → P (f r))
      → All P rows
      → All P (update_where p f rows)
  unfolding update_where
  All-update_where P p f [] step h = tt
  All-update_where P p f (r ∷ rows) step (x, h) =
      (changed (p r) refl, All-update_where P p f rows step h)
    where
      changed : (b : Bool) → p r ≡ b → P (if b then f r else r)
      changed true e = step r e x
      changed false e = x

  pub count_where-append :
      (p : R → Bool) (rows : List R) (row : R)
      → count_where p (rows ++ row ∷ []) ≡ count_where p rows + (if p row then 1 else 0)
  unfolding count_where
  count_where-append p [] row = ground arith
  count_where-append p (r ∷ rows) row = ground (arith, count_where-append p rows row)

  -- An UPDATE that leaves the counted columns alone.
  pub count_where-update_where :
      (p q : R → Bool) (f : R → R) (rows : List R)
      → ((r : R) → p (f r) ≡ p r)
      → count_where p (update_where q f rows) ≡ count_where p rows
  unfolding count_where update_where
  count_where-update_where p q f [] same = refl
  count_where-update_where p q f (r ∷ rows) same =
      ground (arith, count_where-update_where p q f rows same, same r)

  pub count_where-of-none :
      (p : R → Bool) (rows : List R) → find p rows ≡ none → count_where p rows ≡ 0
  unfolding count_where
  count_where-of-none p [] h = refl
  count_where-of-none p (r ∷ rows) h = ground (arith, count_where-of-none p rows)

  pub count_where-of-any :
      (p : R → Bool) (rows : List R) → any p rows ≡ false → count_where p rows ≡ 0
  unfolding count_where
  count_where-of-any p [] h = refl
  count_where-of-any p (r ∷ rows) h = ground (arith, count_where-of-any p rows)

  pub any-update_where :
      (p q : R → Bool) (f : R → R) (rows : List R)
      → ((r : R) → p (f r) ≡ p r)
      → any p (update_where q f rows) ≡ any p rows
  unfolding update_where
  any-update_where p q f [] same = refl
  any-update_where p q f (r ∷ rows) same = ground (arith, any-update_where p q f rows same, same r)

  pub any-append :
      (p : R → Bool) (rows more : List R) → any p rows ≡ true → any p (rows ++ more) ≡ true
  any-append p [] more h = absurd cc
  any-append p (r ∷ rows) more h = ground (arith, any-append p rows more)

  pub any-last : (p : R → Bool) (rows : List R) (r : R) → p r ≡ true → any p (rows ++ r ∷ []) ≡ true
  any-last p [] r h = ground arith
  any-last p (s ∷ rows) r h = ground (arith, any-last p rows r h)

-- What a throw inside the transaction had written is rolled back.
roll_back : {S E A : Type 0} → S → Result E A × S → Result E A × S
roll_back s (ok a, s') = (ok a, s')
roll_back s (err e, s') = (err e, s)

unfoldable pub transaction : {S E A : Type 0} → Exec S E A → Exec S E A
unfolding roll_back
transaction work s = roll_back s (work s)

-- What holds of the state before and of the state after the work holds after the transaction.
roll_back_keeps :
    {S E A : Type 0} (P : S → Type 0) (s : S) (p : Result E A × S)
    → P s
    → P p.1
    → P (roll_back s p).1
unfolding roll_back
roll_back_keeps P s (ok a, s') h h' = h'
roll_back_keeps P s (err e, s') h h' = h

pub transaction_keeps :
    {S E A : Type 0} (P : S → Type 0) (work : Exec S E A) (s : S)
    → P s
    → P (work s).1
    → P (transaction work s).1
unfolding transaction
transaction_keeps P work s h h' = roll_back_keeps P s (work s) h h'

pub transaction-result :
    {S E A : Type 0} (work : Exec S E A) (s : S) → (transaction work s).0 ≡ (work s).0
unfolding transaction
transaction-result {S} {E} {A} work s = go (work s)
  where
    go : (p : Result E A × S) → (roll_back s p).0 ≡ p.0
    go (ok a, s') = refl
    go (err e, s') = refl

pub transaction_pure :
    {S E A : Type 0} (work : Exec S E A) (s : S) (r : Result E A)
    → work s ≡ (r, s)
    → transaction work s ≡ (r, s)
unfolding transaction
transaction_pure {S} {E} {A} work s r h = rw h (go r)
  where
    go : (r : Result E A) → roll_back s (r, s) ≡ (r, s)
    go (ok a) = refl
    go (err e) = refl

pub transaction_ok :
    {S E A : Type 0} (work : Exec S E A) (s s' : S) (a : A)
    → work s ≡ (ok a, s')
    → transaction work s ≡ (ok a, s')
unfolding transaction roll_back
transaction_ok work s s' a h = rw h
