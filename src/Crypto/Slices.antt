-- ===== src/Crypto/Slices.antt =====
-- The string methods that libs/utils/src/crypto.utils.ts uses, and their laws on a concatenation.
use trash.Prelude.{
  ℕ, zero, suc, ◌+◌, ◌≡◌, refl, ap, Bool, true, false, Option, none, some, [], ◌∷◌, ◌++◌, Text,
  arith, length, ◌==◌, leb, if◌then◌else◌,
}
use mathlib.Core.Option

pub index_of : ℕ → Text → Option ℕ
index_of c [] = none
index_of c (x ∷ s) = if x == c then some 0 else Option.map suc (index_of c s)

abbrev or_here : Bool → Option ℕ → Option ℕ
or_here here (some i) = some (suc i)
or_here true none = some 0
or_here false none = none

pub last_index_of : ℕ → Text → Option ℕ
last_index_of c [] = none
last_index_of c (x ∷ s) = or_here (x == c) (last_index_of c s)

unfoldable pub take : ℕ → Text → Text
take zero s = []
take (suc n) [] = []
take (suc n) (x ∷ s) = x ∷ take n s

unfoldable pub drop : ℕ → Text → Text
drop zero s = s
drop (suc n) [] = []
drop (suc n) (x ∷ s) = drop n s

-- `substring` swaps its arguments if the first is the larger.
pub substring : ℕ → ℕ → Text → Text
substring a b s = if leb a b then drop a (take b s) else drop b (take a s)

-- `replace(/c/g, '')`
unfoldable pub without : ℕ → Text → Text
without c [] = []
without c (x ∷ s) = if x == c then without c s else x ∷ without c s

-- The text has no such unit.
abbrev pub Lacks : ℕ → Text → Type 0
Lacks c [] = Unit {0}
Lacks c (x ∷ s) = ((x == c) ≡ false) × Lacks c s

pub without-Lacks : (c : ℕ) (s : Text) → Lacks c s → without c s ≡ s
unfolding without
without-Lacks c [] h = refl
without-Lacks c (x ∷ s) h = ground (arith, without-Lacks c s h.1)

pub Lacks-append : (c : ℕ) (s t : Text) → Lacks c s → Lacks c t → Lacks c (s ++ t)
Lacks-append c [] t h k = k
Lacks-append c (x ∷ s) t h k = (h.0, Lacks-append c s t h.1 k)

pub index_of-append : (c : ℕ) (s t : Text) → Lacks c s → index_of c (s ++ c ∷ t) ≡ some (length s)
unfolding index_of
index_of-append c [] t h = ground arith
index_of-append c (x ∷ s) t h = ground (arith, index_of-append c s t h.1)

last_index_of-Lacks : (c : ℕ) (s : Text) → Lacks c s → last_index_of c s ≡ none
unfolding last_index_of
last_index_of-Lacks c [] h = refl
last_index_of-Lacks c (x ∷ s) h = ground (arith, last_index_of-Lacks c s h.1)

pub last_index_of-append :
    (c : ℕ) (s t : Text) → Lacks c t → last_index_of c (s ++ c ∷ t) ≡ some (length s)
unfolding last_index_of
last_index_of-append c [] t h = ground (arith, last_index_of-Lacks c t h)
last_index_of-append c (x ∷ s) t h = ground (arith, last_index_of-append c s t h)

pub take-append : (s t : Text) → take (length s) (s ++ t) ≡ s
unfolding take
take-append [] t = refl
take-append (x ∷ s) t = ap (◌∷◌ x) (take-append s t)

pub drop-append : (s t : Text) → drop (length s) (s ++ t) ≡ t
unfolding drop
drop-append [] t = refl
drop-append (x ∷ s) t = drop-append s t

pub length-append : (s t : Text) → length (s ++ t) ≡ length s + length t
length-append [] t = omega arith
length-append (x ∷ s) t = omega (arith, length-append s t)

-- Between two parts of a text.
pub substring-append : (p s t : Text) → substring (length p) (length (p ++ s)) ((p ++ s) ++ t) ≡ s
unfolding substring
substring-append p s t =
    rw (take-append (p ++ s) t, drop-append p s) (ground (arith, length-append p s))
