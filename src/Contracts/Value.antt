-- ===== src/Contracts/Value.antt =====
-- JavaScript values as the contracts see them, and `isJsonValue` of
-- packages/contracts/src/contracts.ts.
use benchhand.Prelude.{ℕ, String, Bool, true, false, Option, none, some, if◌then◌else◌, str_eq}

-- `nat` holds the non-negative integers (both zeros are `nat 0`); `finite k` stands for the other
-- finite numbers, negative or fractional, each with an index of its own.
pub data Number : Type 0 where
  nat finite : ℕ → Number
  infinite nan : Number

-- A value, unfolded along its paths: `back` is a reference to an object that the path is already
-- inside, so the tree of a cyclic object is finite. `opaque` is a function, a symbol or a bigint.
-- `obj plain` tells whether the prototype is `Object.prototype` or null. The holes of a sparse array,
-- which JSON texts do not have, are left out.
mutual
  pub data Value : Type 0 where
    null undefined opaque back : Value
    bool : Bool → Value
    num : Number → Value
    str : String → Value
    arr : Items → Value
    obj : Bool → Fields → Value

  pub data Items : Type 0 where
    nil : Items
    cons : Value → Items → Items

  pub data Fields : Type 0 where
    end : Fields
    field : String → Value → Fields → Fields

abbrev pub is_finite : Number → Bool
is_finite (nat n) = true
is_finite (finite n) = true
is_finite infinite = false
is_finite nan = false

-- `isJsonValue` on such a tree; Objects has it with its `WeakSet`, on objects that may be shared.
unfoldable mutual
  pub is_json_value : Value → Bool
  is_json_value null = true
  is_json_value undefined = false
  is_json_value opaque = false
  is_json_value back = false
  is_json_value (bool b) = true
  is_json_value (num n) = is_finite n
  is_json_value (str s) = true
  is_json_value (arr items) = every_item items
  is_json_value (obj plain fields) = if plain then every_field fields else false

  pub every_item : Items → Bool
  every_item nil = true
  every_item (cons v rest) = if is_json_value v then every_item rest else false

  pub every_field : Fields → Bool
  every_field end = true
  every_field (field k v rest) = if is_json_value v then every_field rest else false

-- `value[key]` of an object, where `none` is an absent key
unfoldable pub get_field : String → Fields → Option Value
get_field key end = none
get_field key (field k v rest) = if str_eq k key then some v else get_field key rest

abbrev pub or_undefined : Option Value → Value
or_undefined none = undefined
or_undefined (some v) = v

-- `value.key`: an absent property reads as undefined.
unfoldable pub property : String → Value → Value
unfolding get_field
property key (obj plain fields) = or_undefined (get_field key fields)
property key _ = undefined

-- `{ ...fields, [key]: value }`
unfoldable pub set_field : String → Value → Fields → Fields
set_field key value end = field key value end
set_field key value (field k v rest) =
    let later = set_field key value rest in
    if str_eq k key then field k value rest else field k v later
