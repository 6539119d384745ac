-- ===== src/Query/Reads.antt =====
-- `getOne`, `getMany`, `getManyAndCount` and the select of `updateFrom` of
-- libs/utils/src/base.repository.ts, as the calls on the builder, and what
-- libs/utils/src/polyfill.ts does with the rows that typeorm returns.
pub mod Laws
use trash.Prelude.{
  ℕ, ◌≡◌, Bool, true, false, Option, none, some, List, [], ◌∷◌, ◌++◌, Text, codes, text_eq,
  if◌then◌else◌,
}
use trash.Query.{Query, Options, Repository, common_build, many_build, take_rows, where_same}

module _ {Filter Table Sort : Type 0} where
  -- The calls before `query.getOne()`.
  unfoldable pub get_one : Repository Filter Table Sort → Options Filter Table Sort → Query
  get_one repository options = common_build repository options none ++ take_rows 1 ∷ []

  -- The calls before `query.getMany()`, and before `query.getManyAndCount()`.
  unfoldable pub get_many : Repository Filter Table Sort → Options Filter Table Sort → Query
  get_many repository options = many_build repository (common_build repository options none) options

  abbrev pub filtered_alias : Repository Filter Table Sort → Text
  filtered_alias repository = repository.table_name ++ codes "_filtered"

  -- The select of `updateFrom`: the rows that the options choose, one for each row to update.
  unfoldable pub filtered_select :
      Repository Filter Table Sort → Options Filter Table Sort → Text → Query
  filtered_select repository options primary_column =
      common_build repository options (some (filtered_alias repository))
      ++ where_same (filtered_alias repository) repository.table_name primary_column ∷ []

-- An entity, or a row as the driver returns it: the value of each property.
abbrev pub Row : Type 0 → Type 0
Row V = Text → Option V

abbrev also {ℓ} : {A : Type ℓ} → Option A → Option (List A) → Option (List A)
also none rest = none
also (some a) none = none
also (some a) (some rest) = some (a ∷ rest)

abbrev pub head_of {ℓ} : {A : Type ℓ} → List A → Option A
head_of [] = none
head_of (a ∷ rest) = some a

abbrev tail_of {ℓ} : {A : Type ℓ} → List A → List A
tail_of [] = []
tail_of (a ∷ rest) = rest

-- `typeof entities[0] === undefined` compares a text with `undefined`.
abbrev is_text_undefined : Bool
is_text_undefined = false

-- The metadata that `getOne` reads: that of the entity, or that of an empty array.
abbrev metadata_of_one : List (Text × Text) → List (Text × Text)
metadata_of_one meta_info = if is_text_undefined then meta_info else []

module _ {V : Type 0} where
  abbrev pub with_property : Text → Option V → Row V → Row V
  with_property key value row k = if text_eq key k then value else row k

  -- The loop over `VIRTUAL_COLUMN_KEY`'s metadata: pairs of a property and a column.
  unfoldable pub fill : List (Text × Text) → Row V → Row V → Row V
  fill [] item entity = entity
  fill ((key, name) ∷ meta_info) item entity =
      fill meta_info item (with_property key (item name) entity)

  -- An entity with the raw row at its index; a missing row has no columns to read.
  abbrev pub filled : List (Text × Text) → Row V → Option (Row V) → Option (Row V)
  filled [] entity raw = some entity
  filled (column ∷ meta_info) entity none = none
  filled (column ∷ meta_info) entity (some item) = some (fill (column ∷ meta_info) item entity)

  -- `getMany`: the entities, or a `TypeError`.
  unfoldable pub many_entities :
      List (Text × Text) → List (Row V) → List (Row V) → Option (List (Row V))
  many_entities meta_info [] raw = some []
  many_entities meta_info (entity ∷ entities) raw =
      let rest = many_entities meta_info entities (tail_of raw) in
      also (filled meta_info entity (head_of raw)) rest

  -- `getManyAndCount`
  unfoldable pub many_and_count :
      List (Text × Text) → List (Row V) → List (Row V) → ℕ → Option (List (Row V) × ℕ)
  many_and_count meta_info entities raw count = elim (many_entities meta_info entities raw) [
    | none ↦ none
    | some items ↦ some (items, count)
  ]

  -- `getOne`
  unfoldable pub one_entity : List (Text × Text) → List (Row V) → List (Row V) → Option (Row V)
  one_entity meta_info [] raw = none
  one_entity meta_info (entity ∷ entities) raw =
      filled (metadata_of_one meta_info) entity (head_of raw)
