-- ===== src/Seeds/Laws.antt =====
-- What is read of a CSV file that was written from a table.
use mathlib.Core.List.{append_assoc}
use trash.Prelude.{
  true, length, ◌≤◌, some, text_eq, ℕ, ◌≡◌, refl, ap, ◌∙◌, false, List, [], ◌∷◌, ◌++◌, map, Text,
  ==_refl, join,
}
use trash.Crypto.Slices.{Lacks}
use trash.Seeds.{are_spaces, Seed, seed_value, split}

split-Lacks : (sep : ℕ) (s : Text) → Lacks sep s → split sep s ≡ s ∷ []
unfolding split
split-Lacks sep [] h = refl
split-Lacks sep (c ∷ s) (h, hs) = rw (h, split-Lacks sep s hs) refl

split-append : (sep : ℕ) (s t : Text) → Lacks sep s → split sep (s ++ (sep ∷ t)) ≡ s ∷ split sep t
unfolding split
split-append sep [] t h = rw (==_refl sep) refl
split-append sep (c ∷ s) t (h, hs) = rw (h, split-append sep s t hs) refl

-- No part has the separator.
abbrev pub AllLack : ℕ → List Text → Type 0
AllLack sep [] = Unit {0}
AllLack sep (s ∷ parts) = Lacks sep s × AllLack sep parts

abbrev pub IsFilled {ℓ} : {A : Type ℓ} → List A → Type 0
IsFilled [] = ⊥
IsFilled (a ∷ rest) = Unit {0}

pub split-join :
    (sep : ℕ) (parts : List Text)
    → IsFilled parts
    → AllLack sep parts
    → split sep (join (sep ∷ []) parts) ≡ parts
unfolding join
split-join sep [] i h = elim i [ ]
split-join sep (s ∷ []) i h = split-Lacks sep s h.0
split-join sep (s ∷ (t ∷ parts)) i h =
    let rest = join (sep ∷ []) (t ∷ parts) in
    ap (split sep) (append_assoc s (sep ∷ []) rest)
    ∙ split-append sep s rest h.0
    ∙ ap (λ ps. s ∷ ps) (split-join sep (t ∷ parts) tt h.1)

-- A table: no line is empty, and no value has a comma or a new line.
abbrev pub IsTable : List (List Text) → Type 0
IsTable [] = Unit {0}
IsTable (line ∷ lines) = IsFilled line × AllLack b',' line × AllLack 10 line × IsTable lines

-- The text of a table.
abbrev pub csv : List (List Text) → Text
csv lines = join (10 ∷ []) (map (join (b',' ∷ [])) lines)

-- No other name is the same.
abbrev pub LacksName : Text → List Text → Type 0
LacksName name [] = Unit {0}
LacksName name (other ∷ names) = (text_eq other name ≡ false) × LacksName name names

-- The seed has the value of each name.
abbrev pub Holds : List Text → List Text → Seed → Type 0
Holds (name ∷ names) (value ∷ values) seed =
    (seed name ≡ some (seed_value value)) × Holds names values seed
Holds _ _ seed = Unit

abbrev pub AreDistinct : List Text → Type 0
AreDistinct [] = Unit {0}
AreDistinct (name ∷ names) = LacksName name names × AreDistinct names

-- One seed for each row.
abbrev pub AllHold : List Text → List (List Text) → List Seed → Type 0
AllHold names [] [] = Unit {0}
AllHold names (row ∷ rows) (seed ∷ seeds) = Holds names row seed × AllHold names rows seeds
AllHold names _ _ = ⊥

-- No row is longer than the header.
abbrev pub AreShort : List Text → List (List Text) → Type 0
AreShort names [] = Unit {0}
AreShort names (row ∷ rows) = (length row ≤ length names) × AreShort names rows

-- White space at the end of a file, or a comma and then white space.
pub data IsEnding : Text → Type 0 where
  spaces : {s : Text} → are_spaces s ≡ true → IsEnding s
  comma : {s : Text} → are_spaces s ≡ true → IsEnding (b',' ∷ s)

-- The last unit of a text.
pub record EndsIn (t : Text) (c : ℕ) : Type 0 where
  pub before : Text
  pub is : t ≡ before ++ (c ∷ [])
