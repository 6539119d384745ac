-- ===== src/Query/Parameters.antt =====
-- `updateFrom` of libs/utils/src/base.repository.ts, which writes the parameters of two queries into
-- their SQL. A query's SQL and parameters are what typeorm's `getQueryAndParameters` returns.
pub mod Laws
use trash.Prelude.{
  join, map, ℕ, zero, suc, Bool, true, false, Option, none, some, List, [], ◌∷◌, ◌++◌, Text, codes,
}
use trash.Entity.{from}
use trash.Sessions.Decimal.{decimal}
use trash.Replace.{strip, replace}

-- An element of an array: a string, or the text that `join` prints for anything else.
pub data Element : Type 0 where
  string : Text → Element
  printed : Text → Element

-- A parameter: a string, an array, the text that any other object, a number or a Boolean is printed
-- as, or a value of another type, for which nothing is replaced.
pub data Param : Type 0 where
  string : Text → Param
  array : List Element → Param
  printed : Text → Param
  undefined : Param

abbrev quoted : Text → Text
quoted s = codes "\"" ++ s ++ codes "\""

abbrev pub element_text : Element → Text
element_text (Element.string s) = quoted s
element_text (Element.printed s) = s

-- `join(',')`
abbrev pub joined : List Element → Text
joined es = join (codes ",") (map element_text es)

abbrev pub param_text : Param → Option Text
param_text (Param.string s) = some (quoted s)
param_text (array es) = some (joined es)
param_text (Param.printed s) = some s
param_text undefined = none

-- `'$' + (i + 1)`
abbrev pub placeholder : ℕ → Text
placeholder i = b'$' ∷ decimal (suc i)

abbrev pub replace_some : Text → Text → Option Text → Text
replace_some query index none = query
replace_some query index (some value) = replace query index value

-- The round for one parameter.
abbrev pub assigned : Text → ℕ → Param → Text
assigned query i p = replace_some query (placeholder i) (param_text p)

-- `_queryParamsAssign`, from the parameter number `i` on.
unfoldable pub query_params_assign : Text → ℕ → List Param → Text
query_params_assign query i [] = query
query_params_assign query i (p ∷ ps) = query_params_assign (assigned query i p) (suc i) ps

pub record Sql : Type 0 where
  pub query : Text
  pub parameters : List Param

-- `substring(indexOf(word))`: the whole text where the word is not in it.
unfoldable pub from_word : Text → Text → Option Text
from_word word [] = elim (strip word []) [ none ↦ none | some _ ↦ some [] ]
from_word word (c ∷ s) =
    let rest = from_word word s in elim (strip word (c ∷ s)) [ none ↦ rest | some _ ↦ some (c ∷ s) ]

-- The statement that `updateFrom` runs, of its select and its update.
unfoldable pub update_from : Sql → Sql → Text
update_from select update =
    let chosen = query_params_assign select.query 0 select.parameters in
    let changed = query_params_assign update.query 0 update.parameters in
    changed ++ codes " " ++ from (from_word (codes "FROM") chosen) chosen
