-- ===== src/Operations/Journal/Steps.antt =====
-- The journal as a state machine for each id: how the row of every id may change in one call.
use mathlib.Core.Option
use benchhand.Prelude.{
  ◌≤◌, String, Bool, true, false, Option, none, some, ◌≡◌, refl, arith, if◌then◌else◌, str_eq, ◌∙◌,
}
use benchhand.Contracts.Schema.{
  OperationState, accepted, running, committed, failed, unknown_needs_reconcile, rolled_back,
  Thrown,
}
use benchhand.Operations.Record.{OperationRow}
use benchhand.Operations.Journal.{Journal, same_state, transition}
use benchhand.Operations.Journal.Rows.{row_at, IsKeyed, transition-row_at, transition-IsKeyed}

-- The states that a row in the first state may be in later.
abbrev pub may_become : OperationState → OperationState → Bool
may_become accepted rolled_back = false
may_become accepted _ = true
may_become running accepted = false
may_become running rolled_back = false
may_become running _ = true
may_become committed s = same_state committed s
may_become failed s = same_state failed s
may_become unknown_needs_reconcile s = same_state unknown_needs_reconcile s
may_become rolled_back s = same_state rolled_back s

-- No call takes a row out of these states.
abbrev pub is_settled : OperationState → Bool
is_settled accepted = false
is_settled running = false
is_settled _ = true

may_become_refl : (s : OperationState) → may_become s s ≡ true
may_become_refl accepted = refl
may_become_refl _ = refl

may_become_trans :
    (s t u : OperationState) → may_become s t ≡ true → may_become t u ≡ true → may_become s u ≡ true
may_become_trans s t u h k = ground arith

module _ {T : Type 0} where
  pub record Follows (r r' : OperationRow T) : Type 0 where
    pub same_id : r'.operation_id ≡ r.operation_id
    pub same_kind : r'.kind ≡ r.kind
    pub same_fingerprint : r'.fingerprint ≡ r.fingerprint
    pub version_grows : r.version ≤ r'.version
    pub legal : may_become r.state r'.state ≡ true
    pub settled_stays : is_settled r.state ≡ true → r' ≡ r

  -- A row may appear, and never goes away.
  abbrev pub MayFollow : Option (OperationRow T) → Option (OperationRow T) → Type 0
  MayFollow none o = Unit
  MayFollow (some r) none = ⊥
  MayFollow (some r) (some r') = Follows r r'

  pub record Evolves (rows rows' : Journal T) : Type 0 where
    pub keyed : IsKeyed rows → IsKeyed rows'
    pub follows : (id : String) → MayFollow (row_at id rows) (row_at id rows')

  Follows-refl : (r : OperationRow T) → Follows r r
  Follows-refl r = record {
    same_id = refl;
    same_kind = refl;
    same_fingerprint = refl;
    version_grows = omega arith;
    legal = may_become_refl r.state;
    settled_stays = λ h. refl;
  }

  Follows-trans : (r s t : OperationRow T) → Follows r s → Follows s t → Follows r t
  Follows-trans r s t h k = record {
    same_id = k.same_id ∙ h.same_id;
    same_kind = k.same_kind ∙ h.same_kind;
    same_fingerprint = k.same_fingerprint ∙ h.same_fingerprint;
    version_grows = omega (arith, h.version_grows, k.version_grows);
    legal = may_become_trans r.state s.state t.state h.legal k.legal;
    settled_stays = λ fixed. let e = h.settled_stays fixed in k.settled_stays (rw e fixed) ∙ e;
  }

  pub MayFollow-refl : (o : Option (OperationRow T)) → MayFollow o o
  MayFollow-refl none = tt
  MayFollow-refl (some r) = Follows-refl r

  pub MayFollow-trans :
      (o p q : Option (OperationRow T)) → MayFollow o p → MayFollow p q → MayFollow o q
  MayFollow-trans none p q h k = tt
  MayFollow-trans (some r) none q h k = absurd h
  MayFollow-trans (some r) (some s) none h k = absurd k
  MayFollow-trans (some r) (some s) (some t) h k = Follows-trans r s t h k

  pub Evolves-refl : (rows : Journal T) → Evolves rows rows
  Evolves-refl rows = record { keyed = λ k. k; follows = λ id. MayFollow-refl (row_at id rows) }

  pub Evolves-trans : (a b c : Journal T) → Evolves a b → Evolves b c → Evolves a c
  Evolves-trans a b c h k = record {
    keyed = λ x. k.keyed (h.keyed x);
    follows = λ id.
        MayFollow-trans (row_at id a) (row_at id b) (row_at id c) (h.follows id) (k.follows id);
  }

  pub MayFollow-map :
      (g : OperationRow T → OperationRow T) (o : Option (OperationRow T))
      → ((r : OperationRow T) → Follows r (g r))
      → MayFollow o (Option.map g o)
  MayFollow-map g none h = tt
  MayFollow-map g (some r) h = h r

  -- A conditional UPDATE lets every row follow if its change is a step from the state it needs.
  pub transition-Evolves :
      (id : String) (from : OperationState) (e : Thrown) (change : OperationRow T → OperationRow T)
      (rows : Journal T)
      → ((r : OperationRow T) → (change r).operation_id ≡ r.operation_id)
      → ((r : OperationRow T) → same_state r.state from ≡ true → Follows r (change r))
      → Evolves rows (transition id from e change rows).1
  transition-Evolves id from e change rows same step = record {
    keyed = transition-IsKeyed id from e change same rows;
    follows = λ j. rw (transition-row_at id from e change same rows j) (
        MayFollow-map _ (row_at j rows)
          (λ r. follow (str_eq id j) r (same_state r.state from) refl));
  }
    where
      follow :
          (b : Bool) (r : OperationRow T) (c : Bool)
          → same_state r.state from ≡ c
          → Follows r (if b then (if c then change r else r) else r)
      follow true r true h = step r h
      follow true r false h = Follows-refl r
      follow false r c h = Follows-refl r
