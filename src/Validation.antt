-- ===== src/Validation.antt =====
-- The password of a DTO: `CHARACTERS_WITH_NUMBERS_AND_SYMBOLS_REQUIRED` of
-- libs/types/src/base.dto.ts, which apps/auth/src/app/routes/v1/auth/auth.dto.ts asks a password to
-- match. The decorators that test an address, a UUID or a type are class-validator's.
pub mod Laws
pub mod Nested
use trash.Prelude.{
  ℕ, Bool, true, false, ◌&&◌, ◌||◌, [], ◌∷◌, Text, codes, length, leb, ◌==◌, if◌then◌else◌,
}

-- The range of a character class.
abbrev between : ℕ → ℕ → ℕ → Bool
between a b c = leb a c && leb c b

abbrev one_of : Text → ℕ → Bool
one_of [] c = false
one_of (x ∷ s) c = if x == c then true else one_of s c

abbrev pub is_lower : ℕ → Bool
is_lower = between b'a' b'z'

abbrev pub is_upper : ℕ → Bool
is_upper = between b'A' b'Z'

abbrev pub is_digit : ℕ → Bool
is_digit = between b'0' b'9'

-- ``[!@#$%^&*()_+-=}{\[\]"|':;`?><,.\\]``, where `+-=` is the range from `+` to `=`.
abbrev pub is_special : ℕ → Bool
is_special c = between b'+' b'=' c || one_of (codes "!@#$%^&*()_}{[]\"|':;`?><,.\\") c

-- The class that all characters are from.
abbrev pub is_allowed : ℕ → Bool
is_allowed c = is_upper c || is_lower c || is_digit c || is_special c

-- The line terminators, which `.` does not match.
abbrev pub is_line_end : ℕ → Bool
is_line_end c = one_of (10 ∷ 13 ∷ 8232 ∷ 8233 ∷ []) c

-- `(?=.*[...])` at the start.
unfoldable pub looks_ahead : (ℕ → Bool) → Text → Bool
looks_ahead p [] = false
looks_ahead p (c ∷ s) =
    let rest = looks_ahead p s in if p c then true else if is_line_end c then false else rest

-- `[...]*` up to the end.
unfoldable pub all : (ℕ → Bool) → Text → Bool
all p [] = true
all p (c ∷ s) = let rest = all p s in if p c then rest else false

unfoldable pub password_is_valid : Text → Bool
password_is_valid s =
    looks_ahead is_lower s
    && looks_ahead is_upper s
    && looks_ahead is_digit s
    && looks_ahead is_special s
    && all is_allowed s
    && leb 8 (length s)
