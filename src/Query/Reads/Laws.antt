-- ===== src/Query/Reads/Laws.antt =====
-- The virtual columns of what the polyfill returns.
use trash.Prelude.{
  ◌≤◌, ◌≡◌, refl, ◌∙◌, false, some, List, [], ◌∷◌, Text, text_eq, text_eq_refl, arith, length,
}
use trash.Query.Reads.{Row, with_property, fill, many_entities, one_entity, head_of, filled}

-- No property of the list has that name.
abbrev pub IsOther : Text → List (Text × Text) → Type 0
IsOther k [] = Unit {0}
IsOther k ((key, name) ∷ columns) = (text_eq key k ≡ false) × IsOther k columns

-- A list of properties with different names.
abbrev pub AreDistinct : List (Text × Text) → Type 0
AreDistinct [] = Unit {0}
AreDistinct ((key, name) ∷ columns) = IsOther key columns × AreDistinct columns

module _ {V : Type 0} where
  pub fill-other :
      (k : Text) (columns : List (Text × Text)) (item entity : Row V)
      → IsOther k columns
      → fill columns item entity k ≡ entity k
  unfolding fill
  fill-other k [] item entity h = refl
  fill-other k ((key, name) ∷ columns) item entity (h, hs) =
      fill-other k columns item (with_property key (item name) entity) hs ∙ rw h refl

  -- Every virtual column has been read from the row.
  abbrev pub AreRead : List (Text × Text) → Row V → Row V → Type 0
  AreRead [] item entity = Unit {0}
  AreRead ((key, name) ∷ columns) item entity =
      (entity key ≡ item name) × AreRead columns item entity

  pub fill-AreRead :
      (columns : List (Text × Text)) (item entity : Row V)
      → AreDistinct columns
      → AreRead columns item (fill columns item entity)
  unfolding fill
  fill-AreRead [] item entity h = tt
  fill-AreRead ((key, name) ∷ columns) item entity (h, hs) =
      let next = with_property key (item name) entity in
      (
        fill-other key columns item next h ∙ rw (text_eq_refl key) refl,
        fill-AreRead columns item next hs,
      )

  -- One item for each entity: it has the virtual columns of the row at its index, and all else of
  -- the entity.
  abbrev pub AreFilled : List (Text × Text) → List (Row V) → List (Row V) → List (Row V) → Type 0
  AreFilled columns raw [] [] = Unit {0}
  AreFilled columns (row ∷ raw) (entity ∷ entities) (item ∷ items) =
      AreRead columns row item
      × ((k : Text) → IsOther k columns → item k ≡ entity k)
      × AreFilled columns raw entities items
  AreFilled columns _ _ _ = ⊥

  filled-fill :
      (columns : List (Text × Text)) (entity row : Row V)
      → filled columns entity (some row) ≡ some (fill columns row entity)
  unfolding fill
  filled-fill [] entity row = refl
  filled-fill (column ∷ columns) entity row = refl

  many_entities-AreFilled :
      (columns : List (Text × Text)) (entities raw : List (Row V))
      → AreDistinct columns
      → length entities ≤ length raw
      → (items : List (Row V)) × (many_entities columns entities raw ≡ some items)
        × AreFilled columns raw entities items
  unfolding many_entities
  many_entities-AreFilled columns [] raw h n = ([], refl, tt)
  many_entities-AreFilled columns (entity ∷ entities) [] h n = absurd (omega (arith, n))
  many_entities-AreFilled columns (entity ∷ entities) (row ∷ raw) h n =
      let (items, e, rest) = many_entities-AreFilled columns entities raw h (omega (arith, n)) in
      (
        fill columns row entity ∷ items,
        rw (filled-fill columns entity row, e) refl,
        (fill-AreRead columns row entity h, λ k other. fill-other k columns row entity other, rest),
      )

  one_entity-first :
      (columns : List (Text × Text)) (entities raw : List (Row V))
      → one_entity columns entities raw ≡ head_of entities
  unfolding one_entity
  one_entity-first columns [] raw = refl
  one_entity-first columns (entity ∷ entities) raw = refl

  -- Where the virtual columns have different properties and there is a raw row for each entity,
  -- `getMany` returns one item for each entity, with every virtual column read from the row at the
  -- entity's index and every other property as it was; `getOne` returns the first entity with no
  -- virtual column read.
  pub reads_lem :
      (columns : List (Text × Text)) (entities raw : List (Row V))
      → AreDistinct columns
      → length entities ≤ length raw
      → ((items : List (Row V)) × (many_entities columns entities raw ≡ some items)
          × AreFilled columns raw entities items)
        × (one_entity columns entities raw ≡ head_of entities)
  reads_lem columns entities raw h n =
      (many_entities-AreFilled columns entities raw h n, one_entity-first columns entities raw)
