-- ===== src/Validation/Nested.antt =====
-- `ValidateNested` and `MinString` of apps/auth/src/app/validators. What class-validator finds wrong
-- with a value of a schema, and the comparison of BigNumber, are parameters.
pub mod Laws
use trash.Prelude.{
  if◌then◌else◌, ℕ, Bool, true, false, Option, none, some, List, [], ◌∷◌, ◌++◌, map, Text, codes,
  join,
}
use trash.Sessions.Decimal.{decimal}

-- A property's value: an array, or anything else.
pub data Value (V : Type 0) : Type 0 where
  array : List V → Value V
  single : V → Value V

-- The constraints of one error, as their messages.
abbrev pub Constraints : Type 0
Constraints = List Text

abbrev pub is_empty {ℓ} : {A : Type ℓ} → List A → Bool
is_empty [] = true
is_empty (a ∷ rest) = false

-- `map((e) => e.constraints).reduce((acc, next) => acc.concat(Object.values(next)), [])`
unfoldable pub messages : List Constraints → List Text
messages [] = []
messages (e ∷ es) = e ++ messages es

module _ {V : Type 0} (validate_sync : V → List Constraints) where
  -- The loop over an array.
  unfoldable pub all_valid : List V → Bool
  all_valid [] = true
  all_valid (v ∷ vs) = let rest = all_valid vs in if is_empty (validate_sync v) then rest else false

  unfoldable pub validate : Value V → Bool
  validate (array vs) = all_valid vs
  validate (single v) = is_empty (validate_sync v)

  -- The loop of `defaultMessage` returns in its first round, and an empty array has no message.
  unfoldable pub default_message : Text → Value V → Option Text
  default_message property (array []) = none
  default_message property (array (v ∷ vs)) = some (
      property
      ++ codes "::index"
      ++ decimal 0
      ++ codes " -> "
      ++ join (codes ",") (messages (validate_sync v)))
  default_message property (single v) =
      some (property ++ codes ": " ++ join (codes ",") (messages (validate_sync v)))

-- `MinString`, of `gte` on what BigNumber makes of a text.
module _ (gte : Text → Text → Bool) where
  unfoldable pub min_string : Text → Text → Bool
  min_string min value = gte value min

unfoldable pub min_string_message : Text → Text
min_string_message min = codes "value lower than " ++ min
