-- ===== src/Contracts/Tests.antt =====
-- Values with and without parts that JSON does not have.
use benchhand.Prelude.{true, false, some, List, [], ◌∷◌, ◌≡◌, refl}
use benchhand.Contracts.Value.{
  Value, undefined, str, arr, obj, nil, cons, end, field, is_json_value,
}
use benchhand.Contracts.Objects.{
  str_held, bool_held, reference, hole, item, property_of, HeapObject, array, object_with,
  is_json_value_seen,
}
use benchhand.Contracts.Objects.Unfolded.{unfold_held, is_json_value_unfolds}

abbrev nested : Value
nested = obj true (field "names" (arr (cons (str "a") nil)) end)

nested_is_json : is_json_value nested ≡ true
unfolding is_json_value
nested_is_json = refl

holds_undefined : is_json_value (obj true (field "x" undefined end)) ≡ false
unfolding is_json_value
holds_undefined = refl

-- An object that two properties share, one that holds itself, and an array with a hole.
abbrev memory : List HeapObject
memory =
    object_with true (
      property_of "a" (reference 1)
      ∷ property_of "b" (reference 1)
      ∷ property_of "c" (reference 3)
      ∷ [])
    ∷ array (item (str_held "x") ∷ [])
    ∷ object_with true (property_of "self" (reference 2) ∷ [])
    ∷ array (hole ∷ item (bool_held true) ∷ [])
    ∷ []

shared_is_json : is_json_value_seen memory 5 (reference 0) [] ≡ some (true, [])
unfolding is_json_value_seen
shared_is_json = refl

cyclic_is_not_json : is_json_value_seen memory 5 (reference 2) [] ≡ some (false, [])
unfolding is_json_value_seen
cyclic_is_not_json = refl

is_json_value_unfolds_example :
    is_json_value_seen memory 5 (reference 2) []
    ≡ some (is_json_value (unfold_held memory 5 [] (reference 2)), [])
is_json_value_unfolds_example = is_json_value_unfolds memory (reference 2)
