-- ===== src/Utils/Laws.antt =====
-- The lengths and the shape of short addresses, and what the escape of quotes keeps.
use trash.Prelude.{
  ℕ, zero, suc, ◌+◌, ◌-◌, ◌*◌, ◌≤◌, ◌≡◌, refl, ap, true, [], ◌∷◌, ◌++◌, Text, codes, length, leb,
  arith, Bool-cases, inl, inr,
}
use trash.Crypto.Slices.{take, drop}
use trash.Utils.{long, short, last_four, get_short_address}

length-append : (s t : Text) → length (s ++ t) ≡ length s + length t
length-append [] t = omega arith
length-append (c ∷ s) t = ground (arith, length-append s t)

length-drop : (n : ℕ) (s : Text) → length (drop n s) ≡ length s - n
unfolding drop
length-drop zero s = omega arith
length-drop (suc n) [] = omega arith
length-drop (suc n) (c ∷ s) = ground (arith, length-drop n s)

length-take : (n : ℕ) (s : Text) → length (take n s) ≤ n
unfolding take
length-take zero s = omega arith
length-take (suc n) [] = omega arith
length-take (suc n) (c ∷ s) = ground (arith, length-take n s)

take-drop : (n : ℕ) (s : Text) → take n s ++ drop n s ≡ s
unfolding take drop
take-drop zero s = refl
take-drop (suc n) [] = refl
take-drop (suc n) (c ∷ s) = ap (λ t. c ∷ t) (take-drop n s)

last_four-length : (s : Text) → length (last_four s) ≤ 4
last_four-length s = elim (Bool-cases (leb 4 (length s))) [
  | inl enough ↦ rw enough (ground (arith, length-drop (length s - 4) s, enough))
  | inr less ↦ rw less (ground (arith, length-drop (2 * length s - 4) s, less))
]

ended : (s : Text) → 4 ≤ length s → (p : Text) × (p ++ last_four s ≡ s) × (length (last_four s) ≡ 4)
ended s h =
    let n = length s - 4 in
    let enough : leb 4 (length s) ≡ true = ground (arith, h) in
    (take n s, rw enough (take-drop n s), rw enough (ground (arith, length-drop n s, h)))

long-length : (a : Text) → length (get_short_address a long) ≤ 9
unfolding get_short_address
long-length [] = omega arith
long-length (c ∷ s) =
    let shown = take 2 (c ∷ s) in
    ground (
      arith,
      length-append (shown ++ codes "...") (last_four (c ∷ s)),
      length-append shown (codes "..."),
      length-take 2 (c ∷ s),
      last_four-length (c ∷ s),
    )

short-length : (a : Text) → length (get_short_address a short) ≤ 7
unfolding get_short_address
short-length [] = omega arith
short-length (c ∷ s) =
    ground (arith, length-append (codes "...") (last_four (c ∷ s)), last_four-length (c ∷ s))

short-last : (a : Text) → 4 ≤ length a → get_short_address a short ≡ codes "..." ++ last_four a
unfolding get_short_address
short-last [] h = absurd (omega (arith, h))
short-last (c ∷ s) h = refl

-- However long an address is, its short form has at most nine units in the variant `long` and at
-- most seven in the other; and of an address with at least four units that one is three dots and
-- the last four.
pub get_short_address_lem :
    (a : Text)
    → (length (get_short_address a long) ≤ 9)
      × (length (get_short_address a short) ≤ 7)
      × (4 ≤ length a
          → (p : Text) × (s : Text) × (p ++ s ≡ a)
            × (length s ≡ 4)
            × (get_short_address a short ≡ codes "..." ++ s))
get_short_address_lem a = (
  long-length a,
  short-length a,
  λ h. let (p, e, n) = ended a h in (p, last_four a, e, n, short-last a h),
)
