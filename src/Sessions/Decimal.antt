-- ===== src/Sessions/Decimal.antt =====
-- `${n}` for a number: its decimal digits.
use trash.Prelude.{
  ℕ, zero, suc, ◌+◌, ◌/◌, ◌%◌, [], ◌∷◌, Text, ltb, if◌then◌else◌, ◌<◌, arith, Bool-cases, inl, inr,
}

-- The digits of `n`, put in front of `rest`. A number is below 10 after as many divisions as its
-- own value, so `n` is fuel enough.
digits_onto : ℕ → ℕ → Text → Text
digits_onto zero n rest = (48 + n % 10) ∷ rest
digits_onto (suc fuel) n rest =
    let longer = digits_onto fuel (n / 10) ((48 + n % 10) ∷ rest) in
    if ltb n 10 then (48 + n) ∷ rest else longer

unfoldable pub decimal : ℕ → Text
unfolding digits_onto
decimal n = digits_onto n n []

abbrev pub AreDigits : Text → Type 0
AreDigits [] = Unit {0}
AreDigits (c ∷ s) = (47 < c) × (c < 58) × AreDigits s

digits_onto-Digits :
    (fuel n : ℕ) (rest : Text) → AreDigits rest → AreDigits (digits_onto fuel n rest)
unfolding digits_onto
digits_onto-Digits zero n rest h = (omega arith, omega arith, h)
digits_onto-Digits (suc fuel) n rest h = elim (Bool-cases (ltb n 10)) [
  | inl small ↦
      let below : n < 10 = ground (arith, small) in rw small (omega arith, omega (arith, below), h)
  | inr large ↦
      rw large
        (digits_onto-Digits fuel (n / 10) ((48 + n % 10) ∷ rest) (omega arith, omega arith, h))
]

pub decimal-Digits : (n : ℕ) → AreDigits (decimal n)
unfolding decimal
decimal-Digits n = digits_onto-Digits n n [] tt
