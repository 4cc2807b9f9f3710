-- ===== src/Contracts/Check.antt =====
-- What the callers need of TypeBox's `Value.Check`: what its documentation says of the schemas that
-- the result envelope is made of.
use benchhand.Prelude.{String, Bool, true, false, none, some, ◌||◌, ◌≡◌, refl, ◌⊎◌, inl, str_eq}
use benchhand.Contracts.Value.{Value, Fields, bool, obj, end, field, get_field}
use benchhand.Contracts.Schema.{
  Schema, literal_bool, unknown, object, Properties, closed, required, optional,
  result_envelope_schema, success_envelope,
}

-- The properties that a schema lists are there, unless optional, and accepted.
abbrev pub Fits : (Schema → Value → Bool) → Properties → Fields → Type 0
Fits check closed fields = Unit
Fits check (required name schema rest) fields =
    ((v : Value) × (get_field name fields ≡ some v) × (check schema v ≡ true))
    × Fits check rest fields
Fits check (optional name schema rest) fields =
    ((get_field name fields ≡ none)
      ⊎ ((v : Value) × (get_field name fields ≡ some v) × (check schema v ≡ true)))
    × Fits check rest fields

abbrev pub is_listed : String → Properties → Bool
is_listed key closed = false
is_listed key (required name schema rest) = str_eq key name || is_listed key rest
is_listed key (optional name schema rest) = str_eq key name || is_listed key rest

-- There is no property but those that a schema lists.
abbrev pub AreListed : Properties → Fields → Type 0
AreListed properties end = Unit
AreListed properties (field key v rest) =
    (is_listed key properties ≡ true) × AreListed properties rest

pub record SchemaCheck : Type 0 where
  pub check : Schema → Value → Bool
  pub accepts_unknown : (v : Value) → check unknown v ≡ true
  pub accepts_literal : (b : Bool) → check (literal_bool b) (bool b) ≡ true
  pub accepts_object :
      (properties : Properties) (fields : Fields)
      → Fits check properties fields
      → AreListed properties fields
      → check (object properties) (obj true fields) ≡ true

-- The schema of the result envelope takes `{ ok: true, result }` with any result.
pub accepts_envelope :
    (schemas : SchemaCheck) (v : Value)
    → schemas.check result_envelope_schema (success_envelope v) ≡ true
unfolding get_field
accepts_envelope schemas v =
    schemas.accepts_object _ _
      (
        (bool true, refl, schemas.accepts_literal true),
        ((v, refl, schemas.accepts_unknown v), (inl refl, tt)),
      )
      (refl, (refl, tt))
