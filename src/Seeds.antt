-- ===== src/Seeds.antt =====
-- `loadSeeds` of libs/tools/src/seeds/seed.abstract.ts, from the text of the file on: the rows of a
-- CSV as objects.
pub mod Laws
use trash.Prelude.{
  ℕ, zero, suc, Bool, true, false, ◌&&◌, ◌||◌, Option, none, some, List, [], ◌∷◌, map, Text, codes,
  text_eq, ◌==◌, leb, if◌then◌else◌,
}
use trash.Entity.{from}

-- What `\s` and `trimEnd` take as white space.
abbrev pub is_space : ℕ → Bool
is_space c =
    (leb 9 c && leb c 13)
    || c == 32
    || c == 160
    || c == 5760
    || (leb 8192 c && leb c 8202)
    || c == 8232
    || c == 8233
    || c == 8239
    || c == 8287
    || c == 12288
    || c == 65279

abbrev pub put_unless : Bool → ℕ → Text → Text
put_unless space c [] = if space then [] else c ∷ []
put_unless space c (d ∷ s) = c ∷ d ∷ s

unfoldable pub trim_end : Text → Text
trim_end [] = []
trim_end (c ∷ s) = put_unless (is_space c) c (trim_end s)

unfoldable pub are_spaces : Text → Bool
are_spaces [] = true
are_spaces (c ∷ s) = is_space c && are_spaces s

-- `replace(/,\s*$/, '')`
unfoldable pub drop_comma : Text → Text
drop_comma [] = []
drop_comma (c ∷ s) = let rest = drop_comma s in if c == b',' && are_spaces s then [] else c ∷ rest

abbrev put_first : ℕ → List Text → List Text
put_first c [] = (c ∷ []) ∷ []
put_first c (part ∷ parts) = (c ∷ part) ∷ parts

-- `split` at one unit.
unfoldable pub split : ℕ → Text → List Text
split sep [] = [] ∷ []
split sep (c ∷ s) = let rest = split sep s in if c == sep then [] ∷ rest else put_first c rest

-- A property is a text or null; a later one takes the place of an earlier one with its name.
abbrev pub Seed : Type 0
Seed = Text → Option (Option Text)

abbrev no_seed : Seed
no_seed key = none

abbrev pub seed_value : Text → Option Text
seed_value value = if text_eq value (codes "null") then none else some value

-- `columnNames[index]`, where a missing name is the property `undefined`.
abbrev pub column_name : List Text → Text
column_name [] = codes "undefined"
column_name (name ∷ names) = name

abbrev pub later_names : List Text → List Text
later_names [] = []
later_names (name ∷ names) = names

abbrev pub assign : Text → Option Text → Seed → Seed
assign name value seed key = if text_eq name key then some value else seed key

-- The loop over the values of a line.
unfoldable pub seed_of : List Text → List Text → Seed → Seed
seed_of names [] seed = seed
seed_of names (value ∷ values) seed =
    seed_of (later_names names) values (assign (column_name names) (seed_value value) seed)

abbrev pub seeds_of : List (List Text) → List Seed
seeds_of [] = []
seeds_of (column_names ∷ lines) = map (λ line. seed_of column_names line no_seed) lines

-- The lines of a file, each as its values.
abbrev pub cells : Text → List (List Text)
cells data_ = map (split b',') (split 10 (drop_comma (trim_end data_)))

unfoldable pub load_seeds : Text → List Seed
load_seeds data_ = seeds_of (cells data_)
