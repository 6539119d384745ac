-- ===== src/Replace.antt =====
-- `String.prototype.replace` of a text by a text, as libs/utils/src/base.repository.ts uses it: the
-- first place where the pattern stands is replaced, and `$$`, `$&`, `` $` `` and `$'` of the
-- replacement are expanded.
pub mod Laws
use trash.Prelude.{
  zero, suc, length, ℕ, Bool, true, false, Option, none, some, List, [], ◌∷◌, ◌++◌, Text, codes,
  ◌==◌, if◌then◌else◌,
}

-- What follows a pattern at the start of a text.
unfoldable pub strip : Text → Text → Option Text
strip [] s = some s
strip (p ∷ ps) [] = none
strip (p ∷ ps) (c ∷ s) = let rest = strip ps s in if c == p then rest else none

-- What `$` and the unit after it stand for, between the text before and after the match.
abbrev pub special : Text → Text → Text → ℕ → Text
special before matched after c =
    if c == b'$'
    then codes "$"
    else if c == b'&'
    then matched
    else if c == b'`'
    then before
    else if c == b'\''
    then after
    else b'$' ∷ c ∷ []

-- The flag: whether the unit before was a `$` that is still to be expanded.
unfoldable pub expand : Bool → Text → Text → Text → Text → Text
expand true before matched after [] = codes "$"
expand false before matched after [] = []
expand true before matched after (c ∷ r) =
    special before matched after c ++ expand false before matched after r
expand false before matched after (c ∷ r) =
    let rest = expand (c == b'$') before matched after r in if c == b'$' then rest else c ∷ rest

-- With the text before the match, or what else there is.
abbrev pub replaced : Option Text → Text → Text → Text → Text → Text
replaced none before pattern_ replacement other = other
replaced (some after) before pattern_ replacement other =
    before ++ expand false before pattern_ after replacement ++ after

unfoldable pub replace_after : Text → Text → Text → Text → Text
replace_after before pattern_ replacement [] =
    replaced (strip pattern_ []) before pattern_ replacement before
replace_after before pattern_ replacement (c ∷ s) =
    let rest = replace_after (before ++ c ∷ []) pattern_ replacement s in
    replaced (strip pattern_ (c ∷ s)) before pattern_ replacement rest

unfoldable pub replace : Text → Text → Text → Text
replace s pattern_ replacement = replace_after [] pattern_ replacement s

-- `replaceAll`: from a place on, with the text before it and how many units of the last match are
-- still to be passed. The empty pattern matches before each unit and at the end.
unfoldable pub replace_from : Text → Text → Text → ℕ → Text → Text
replace_from before [] replacement n [] = expand false before [] [] replacement
replace_from before (p ∷ ps) replacement n [] = []
replace_from before pattern_ replacement (suc n) (c ∷ s) =
    replace_from (before ++ c ∷ []) pattern_ replacement n s
replace_from before [] replacement zero (c ∷ s) =
    expand false before [] (c ∷ s) replacement
    ++ (c ∷ replace_from (before ++ c ∷ []) [] replacement zero s)
replace_from before (p ∷ ps) replacement zero (c ∷ s) = elim (strip (p ∷ ps) (c ∷ s)) [
  | none ↦ c ∷ replace_from (before ++ c ∷ []) (p ∷ ps) replacement zero s
  | some after ↦
      expand false before (p ∷ ps) after replacement
      ++ replace_from (before ++ c ∷ []) (p ∷ ps) replacement (length ps) s
]

unfoldable pub replace_all : Text → Text → Text → Text
replace_all s pattern_ replacement = replace_from [] pattern_ replacement zero s
