-- ===== src/Contracts/Objects.antt =====
-- `isJsonValue` of packages/contracts/src/contracts.ts as it runs: on objects in memory, which may be
-- shared or cyclic, with its `WeakSet` of the objects that it is inside.
pub mod Unfolded
use benchhand.Prelude.{
  ℕ, zero, suc, String, Bool, true, false, not, Option, none, some, List, [], ◌∷◌, if◌then◌else◌,
  ◌==◌, any,
}
use benchhand.Contracts.Value.{
  Number, Value, null, undefined, opaque, back, bool, num, str, arr, obj, Items, nil, cons, Fields,
  end, field, is_finite,
}

-- What a variable, an element or a property holds: an object is held by its number in the memory.
pub data Held : Type 0 where
  null_held undefined_held opaque_held : Held
  bool_held : Bool → Held
  num_held : Number → Held
  str_held : String → Held
  reference : ℕ → Held

-- An element of an array; a sparse array has holes.
pub data Element : Type 0 where
  hole : Element
  item : Held → Element

pub data Property : Type 0 where
  property_of : String → Held → Property

-- `plain` tells whether the prototype is `Object.prototype` or null.
pub data HeapObject : Type 0 where
  array : List Element → HeapObject
  object_with : (plain : Bool) → List Property → HeapObject

unfoldable pub object_at : List HeapObject → ℕ → Option HeapObject
object_at [] r = none
object_at (o ∷ heap) zero = some o
object_at (o ∷ heap) (suc r) = object_at heap r

-- `seen.has` and `seen.delete`; `seen.add` is `∷`.
abbrev pub has : ℕ → List ℕ → Bool
has r seen = any (λ s. s == r) seen

unfoldable pub delete : ℕ → List ℕ → List ℕ
delete r [] = []
delete r (s ∷ seen) = let rest = delete r seen in if s == r then rest else s ∷ rest

-- `every` passes over holes.
unfoldable pub held_items : List Element → List Held
held_items [] = []
held_items (hole ∷ elements) = held_items elements
held_items (item v ∷ elements) = v ∷ held_items elements

-- `Object.values`
unfoldable pub held_values : List Property → List Held
held_values [] = []
held_values (property_of key v ∷ properties) = v ∷ held_values properties

-- What a call answers, and the set behind it; `none` is the end of the fuel.
abbrev pub Checked : Type 0
Checked = Option (Bool × List ℕ)

unfoldable pub and_then : Checked → (List ℕ → Checked) → Checked
and_then none later = none
and_then (some (false, seen)) later = some (false, seen)
and_then (some (true, seen)) later = later seen

unfoldable pub every_held : (Held → List ℕ → Checked) → List Held → List ℕ → Checked
unfolding and_then
every_held check [] seen = some (true, seen)
every_held check (v ∷ vs) seen = and_then (check v seen) (every_held check vs)

-- `seen.delete(value); return valid;`
unfoldable pub leave : ℕ → Checked → Checked
unfolding delete
leave r none = none
leave r (some (valid, seen)) = some (valid, delete r seen)

unfoldable pub entered :
    (check : Held → List ℕ → Checked) (r : ℕ) (is_seen : Bool)
    → Option HeapObject
    → List ℕ
    → Checked
unfolding leave every_held held_items held_values
entered check r true o seen = some (false, seen)
entered check r false none seen = some (false, seen)
entered check r false (some (array elements)) seen =
    leave r (every_held check (held_items elements) (r ∷ seen))
entered check r false (some (object_with false properties)) seen = leave r (some (false, r ∷ seen))
entered check r false (some (object_with true properties)) seen =
    leave r (every_held check (held_values properties) (r ∷ seen))

module _ (heap : List HeapObject) where
  unfoldable pub is_json_value_seen : (fuel : ℕ) → Held → List ℕ → Checked
  unfolding entered object_at
  is_json_value_seen fuel null_held seen = some (true, seen)
  is_json_value_seen fuel undefined_held seen = some (false, seen)
  is_json_value_seen fuel opaque_held seen = some (false, seen)
  is_json_value_seen fuel (bool_held b) seen = some (true, seen)
  is_json_value_seen fuel (num_held n) seen = some (is_finite n, seen)
  is_json_value_seen fuel (str_held s) seen = some (true, seen)
  is_json_value_seen zero (reference r) seen = none
  is_json_value_seen (suc fuel) (reference r) seen =
      entered (is_json_value_seen fuel) r (has r seen) (object_at heap r) seen
