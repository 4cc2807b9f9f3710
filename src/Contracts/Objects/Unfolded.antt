-- ===== src/Contracts/Objects/Unfolded.antt =====
-- What `isJsonValue` answers, by the tree that a value unfolds to along its paths.
use benchhand.Prelude.{
  ℕ, zero, suc, ◌+◌, ◌<◌, ◌≤◌, Bool, true, false, Option, none, some, List, [], ◌∷◌, length, ◌≡◌,
  refl, ap, ◌∙◌, subst, ==_iff, arith, Bool-cases, inl, inr, if◌then◌else◌, ◌==◌,
}
use benchhand.Contracts.Value.{
  Value, null, undefined, opaque, back, bool, num, str, arr, obj, Items, nil, cons, Fields, end,
  field, is_json_value, every_item, every_field,
}
use benchhand.Contracts.Objects.{
  Held, null_held, undefined_held, opaque_held, bool_held, num_held, str_held, reference, Element,
  hole, item, Property, property_of, HeapObject, array, object_with, object_at, has, delete,
  held_items, held_values, Checked, and_then, every_held, leave, entered, is_json_value_seen,
}

-- The parts of an object as a tree.
unfoldable pub unfold_items : (Held → Value) → List Element → Items
unfold_items f [] = nil
unfold_items f (hole ∷ elements) = unfold_items f elements
unfold_items f (item v ∷ elements) = cons (f v) (unfold_items f elements)

unfoldable pub unfold_fields : (Held → Value) → List Property → Fields
unfold_fields f [] = end
unfold_fields f (property_of key v ∷ properties) = field key (f v) (unfold_fields f properties)

unfoldable pub unfold_object : (Held → Value) → (inside : Bool) → Option HeapObject → Value
unfolding unfold_items unfold_fields
unfold_object f true o = back
unfold_object f false none = opaque
unfold_object f false (some (array elements)) = arr (unfold_items f elements)
unfold_object f false (some (object_with plain properties)) = obj plain (unfold_fields f properties)

-- The numbers below n that are not in a list.
abbrev missing : ℕ → List ℕ → ℕ
missing zero seen = 0
missing (suc n) seen = (if has n seen then 0 else 1) + missing n seen

missing-le : (n r : ℕ) (seen : List ℕ) → missing n (r ∷ seen) ≤ missing n seen
missing-le zero r seen = omega arith
missing-le (suc n) r seen = ground (arith, missing-le n r seen)

missing-lt :
    (n r : ℕ) (seen : List ℕ) → r < n → has r seen ≡ false → missing n (r ∷ seen) < missing n seen
missing-lt zero r seen below fresh = absurd (omega arith)
missing-lt (suc n) r seen below fresh = elim (Bool-cases (r == n)) [
  | inl same ↦
      let absent : has n seen ≡ false =
        subst (λ k. has k seen ≡ false) ((==_iff r n).0 same) fresh in
      let fewer = missing-le n r seen in rw (same, absent) (omega (arith, fewer))
  | inr other ↦
      let lower : r < n = ground (arith, ==_iff r n, other) in
      let fewer = missing-lt n r seen lower fresh in rw other (omega (arith, fewer))
]

missing-all : (n : ℕ) → missing n [] ≡ n
missing-all zero = refl
missing-all (suc n) = omega (arith, missing-all n)

object_at-lt :
    (heap : List HeapObject) (r : ℕ) (o : HeapObject) → object_at heap r ≡ some o → r < length heap
unfolding object_at
object_at-lt [] r o h = absurd cc
object_at-lt (o' ∷ heap) zero o h = omega arith
object_at-lt (o' ∷ heap) (suc r) o h = omega (arith, object_at-lt heap r o h)

delete-fresh : (r : ℕ) (seen : List ℕ) → has r seen ≡ false → delete r seen ≡ seen
unfolding delete
delete-fresh r [] h = refl
delete-fresh r (s ∷ seen) h = ground (arith, delete-fresh r seen)

delete-added : (r : ℕ) (seen : List ℕ) → has r seen ≡ false → delete r (r ∷ seen) ≡ seen
unfolding delete
delete-added r seen h = ground (arith, delete-fresh r seen h)

module _ (check : Held → List ℕ → Checked) (f : Held → Value) (seen : List ℕ)
    (agree : (v : Held) → check v seen ≡ some (is_json_value (f v), seen)) where
  every_item-held :
      (elements : List Element)
      → every_held check (held_items elements) seen
        ≡ some (every_item (unfold_items f elements), seen)
  unfolding every_held held_items unfold_items is_json_value and_then
  every_item-held [] = refl
  every_item-held (hole ∷ elements) = every_item-held elements
  every_item-held (item v ∷ elements) =
      ap (λ c. and_then c (every_held check (held_items elements))) (agree v)
      ∙ elim (Bool-cases (is_json_value (f v))) [
        | inl good ↦ rw good (every_item-held elements)
        | inr bad ↦ rw bad refl
      ]

  every_field-held :
      (properties : List Property)
      → every_held check (held_values properties) seen
        ≡ some (every_field (unfold_fields f properties), seen)
  unfolding every_held held_values unfold_fields is_json_value and_then
  every_field-held [] = refl
  every_field-held (property_of key v ∷ properties) =
      ap (λ c. and_then c (every_held check (held_values properties))) (agree v)
      ∙ elim (Bool-cases (is_json_value (f v))) [
        | inl good ↦ rw good (every_field-held properties)
        | inr bad ↦ rw bad refl
      ]

entered-agrees :
    (check : Held → List ℕ → Checked) (f : Held → Value) (r : ℕ) (seen : List ℕ) (is_seen : Bool)
    (o : Option HeapObject)
    → has r seen ≡ is_seen
    → ((o' : HeapObject) (v : Held)
        → o ≡ some o'
        → is_seen ≡ false
        → check v (r ∷ seen) ≡ some (is_json_value (f v), r ∷ seen))
    → entered check r is_seen o seen ≡ some (is_json_value (unfold_object f is_seen o), seen)
unfolding entered unfold_object is_json_value leave
entered-agrees check f r seen true o same agree = refl
entered-agrees check f r seen false none same agree = refl
entered-agrees check f r seen false (some (array elements)) same agree =
    ap (leave r)
      (every_item-held check f (r ∷ seen) (λ v. agree (array elements) v refl refl) elements)
    ∙ ap (λ rest. some (every_item (unfold_items f elements), rest)) (delete-added r seen same)
entered-agrees check f r seen false (some (object_with false properties)) same agree =
    ap (λ rest. some (false, rest)) (delete-added r seen same)
entered-agrees check f r seen false (some (object_with true properties)) same agree =
    ap (leave r) (
      every_field-held check f (r ∷ seen) (λ v. agree (object_with true properties) v refl refl)
        properties)
    ∙ ap (λ rest. some (every_field (unfold_fields f properties), rest)) (delete-added r seen same)

module _ (heap : List HeapObject) where
  -- A value as a tree: `back` stands for an object that the path is already inside, and a shared
  -- object is unfolded at each place. `opaque` stands for an object that is not in the memory.
  unfoldable pub unfold_held : (fuel : ℕ) → (inside : List ℕ) → Held → Value
  unfolding unfold_object object_at
  unfold_held fuel inside null_held = null
  unfold_held fuel inside undefined_held = undefined
  unfold_held fuel inside opaque_held = opaque
  unfold_held fuel inside (bool_held b) = bool b
  unfold_held fuel inside (num_held n) = num n
  unfold_held fuel inside (str_held s) = str s
  unfold_held zero inside (reference r) = opaque
  unfold_held (suc fuel) inside (reference r) =
      unfold_object (unfold_held fuel (r ∷ inside)) (has r inside) (object_at heap r)

  is_json_value_seen-unfold :
      (fuel : ℕ) (v : Held) (seen : List ℕ)
      → missing (length heap) seen < fuel
      → is_json_value_seen heap fuel v seen ≡ some (is_json_value (unfold_held fuel seen v), seen)
  unfolding is_json_value_seen unfold_held is_json_value
  is_json_value_seen-unfold fuel null_held seen enough = refl
  is_json_value_seen-unfold fuel undefined_held seen enough = refl
  is_json_value_seen-unfold fuel opaque_held seen enough = refl
  is_json_value_seen-unfold fuel (bool_held b) seen enough = refl
  is_json_value_seen-unfold fuel (num_held n) seen enough = refl
  is_json_value_seen-unfold fuel (str_held s) seen enough = refl
  is_json_value_seen-unfold zero (reference r) seen enough = absurd (omega arith)
  is_json_value_seen-unfold (suc fuel) (reference r) seen enough =
      entered-agrees (is_json_value_seen heap fuel) (unfold_held fuel (r ∷ seen)) r seen
        (has r seen) (object_at heap r) refl
        (λ o v there fresh.
          let fewer = missing-lt (length heap) r seen (object_at-lt heap r o there) fresh in
          is_json_value_seen-unfold fuel v (r ∷ seen) (omega (arith, enough, fewer)))

  -- On a memory of any shape, sharing and cycles included, `isJsonValue` ends, within one level more
  -- than there are objects; it answers what the tree of the value says, in which an object inside
  -- itself is no JSON value and one that is only shared is judged at each place; and its set of
  -- objects is empty again behind it.
  pub is_json_value_unfolds :
      (v : Held)
      → is_json_value_seen heap (suc (length heap)) v []
        ≡ some (is_json_value (unfold_held (suc (length heap)) [] v), [])
  is_json_value_unfolds v =
      is_json_value_seen-unfold (suc (length heap)) v [] (omega (arith, missing-all (length heap)))
