-- ===== src/Validation/Laws.antt =====
-- What the pattern for a password asks for, without look-aheads.
use trash.Prelude.{
  ℕ, ◌≡◌, refl, Bool, true, false, ◌&&◌, [], ◌∷◌, Text, arith, length, leb, Bool-cases, inl, inr,
  if◌then◌else◌,
}
use trash.Validation.{
  is_lower, is_upper, is_digit, is_special, is_allowed, is_line_end, looks_ahead, all,
  password_is_valid,
}

-- Some character of the text is of the class.
unfoldable pub any : (ℕ → Bool) → Text → Bool
any p [] = false
any p (c ∷ s) = let rest = any p s in if p c then true else rest

allowed-line_end : (c : ℕ) → is_allowed c ≡ true → is_line_end c ≡ false
allowed-line_end c h = ground arith

digit-special : (c : ℕ) → is_digit c ≡ true → is_special c ≡ true
digit-special c h = ground arith

-- In a text of allowed characters `.` matches each of them.
looks_ahead-any : (p : ℕ → Bool) (s : Text) → all is_allowed s ≡ true → looks_ahead p s ≡ any p s
unfolding looks_ahead all any
looks_ahead-any p [] h = refl
looks_ahead-any p (c ∷ s) h = elim (Bool-cases (is_allowed c)) [
  | inl good ↦
      let rest = rw good at h in
      let line = allowed-line_end c good in rw (line, looks_ahead-any p s rest) refl
  | inr bad ↦ let impossible = rw bad at h in absurd (cc impossible)
]

any-special : (s : Text) → any is_digit s ≡ true → any is_special s ≡ true
unfolding any
any-special [] h = h
any-special (c ∷ s) h = elim (Bool-cases (is_digit c)) [
  | inl digit ↦ rw (digit-special c digit) refl
  | inr other ↦
      let rest = any-special s (rw other at h) in
      elim (Bool-cases (is_special c)) [ inl special ↦ rw special refl | inr none_ ↦ rw none_ rest ]
]

-- A password is accepted just when it has at least eight characters, all of them of the class, and
-- among them a small letter, a capital letter and a digit. No other special character is asked for.
pub password_lem :
    (s : Text)
    → password_is_valid s
      ≡ (any is_lower s && any is_upper s && any is_digit s && all is_allowed s && leb 8 (length s))
unfolding password_is_valid
password_lem s = elim (Bool-cases (all is_allowed s)) [
  | inl good ↦
      rw
        (
          good,
          looks_ahead-any is_lower s good,
          looks_ahead-any is_upper s good,
          looks_ahead-any is_digit s good,
          looks_ahead-any is_special s good,
        )
        (decided (any is_lower s) (any is_upper s) (any is_digit s) (any is_special s)
          (leb 8 (length s)) (any-special s))
  | inr bad ↦ rw bad (
      refused (looks_ahead is_lower s) (looks_ahead is_upper s) (looks_ahead is_digit s)
        (looks_ahead is_special s) (any is_lower s) (any is_upper s) (any is_digit s)
        (leb 8 (length s)))
]
  where
    decided :
        (a b c d e : Bool)
        → (c ≡ true → d ≡ true)
        → (a && b && c && d && true && e) ≡ (a && b && c && true && e)
    decided a b c d e h = ground (arith, h)

    refused :
        (a b c d e f g n : Bool) → (a && b && c && d && false && n) ≡ (e && f && g && false && n)
    refused a b c d e f g n = ground arith
