-- ===== src/Gateway/Rules.antt =====
-- The DTOs of apps/auth/src/app/routes/v1/auth/auth.dto.ts, with the decorators of class-validator
-- as rules. What the package documents of `validate` is the law of `Validator`; its tests of an
-- address, of a UUID and of a length are parameters, and so are its messages.
use trash.Prelude.{ℕ, ◌≡◌, Bool, true, false, ◌&&◌, ◌↔◌, List, [], ◌∷◌, Text, codes}
use trash.Validation.{password_is_valid}

-- A property of the body or of the query: missing, a string, or anything else.
pub data Field : Type 0 where
  missing other : Field
  text : Text → Field

abbrev pub Values : Type 0
Values = Text → Field

-- A value that a DTO declares as a string.
abbrev pub field_text : Field → Text
field_text (text s) = s
field_text _ = []

pub data Rule : Type 0 where
  is_string is_email is_uuid matches_password : Rule
  min_length : ℕ → Rule

pub record Property : Type 0 where
  pub name : Text
  pub rules : List Rule

abbrev pub Dto : Type 0
Dto = List Property

abbrev pub email_key : Text
email_key = codes "email"

abbrev pub password_key : Text
password_key = codes "password"

abbrev pub token_key : Text
token_key = codes "token"

abbrev email_property : Property
email_property = record { name = email_key; rules = is_email ∷ [] }

-- `@IsString()` and `@Matches(CHARACTERS_WITH_NUMBERS_AND_SYMBOLS_REQUIRED)`
abbrev pub password_rules : List Rule
password_rules = is_string ∷ matches_password ∷ []

abbrev pub sign_up_dto : Dto
sign_up_dto = email_property ∷ record { name = password_key; rules = password_rules } ∷ []

abbrev pub token_dto : Dto
token_dto = record { name = token_key; rules = is_uuid ∷ [] } ∷ []

-- `SignInDto` extends `SignUpDto`. Its own decorators of the password stand in place of those of its
-- parent: class-validator leaves out an inherited rule of a property that has an own one of the same
-- type, and all of these are of one.
abbrev pub sign_in_dto : Dto
sign_in_dto =
    email_property ∷ record { name = password_key; rules = is_string ∷ min_length 8 ∷ [] } ∷ []

abbrev pub email_dto : Dto
email_dto = email_property ∷ []

abbrev pub password_recovery_dto : Dto
password_recovery_dto = email_dto

abbrev pub password_recovery_confirm_dto : Dto
password_recovery_confirm_dto = record { name = password_key; rules = password_rules } ∷ []

abbrev pub sign_up_resend_dto : Dto
sign_up_resend_dto = email_dto

-- `ValidationError`, with the values of its `constraints`.
pub record ValidationError : Type 0 where
  pub property : Text
  pub constraints : List Text

-- One rule on one value, by the tests of addresses, UUIDs and lengths. None accepts what is no string.
abbrev pub passes : (Text → Bool) → (Text → Bool) → (ℕ → Text → Bool) → Rule → Field → Bool
passes email uuid long is_string (text s) = true
passes email uuid long is_email (text s) = email s
passes email uuid long is_uuid (text s) = uuid s
passes email uuid long matches_password (text s) = password_is_valid s
passes email uuid long (min_length n) (text s) = long n s
passes email uuid long r missing = false
passes email uuid long r other = false

abbrev pub pass_all : (Text → Bool) → (Text → Bool) → (ℕ → Text → Bool) → List Rule → Field → Bool
pass_all email uuid long [] f = true
pass_all email uuid long (r ∷ rs) f = passes email uuid long r f && pass_all email uuid long rs f

-- Every rule of every property.
abbrev pub is_valid : (Text → Bool) → (Text → Bool) → (ℕ → Text → Bool) → Dto → Values → Bool
is_valid email uuid long [] v = true
is_valid email uuid long (p ∷ ps) v =
    pass_all email uuid long p.rules (v p.name) && is_valid email uuid long ps v

-- class-validator: `validate` returns no errors just when every rule passes.
pub record Validator : Type 0 where
  pub email : Text → Bool
  pub uuid : Text → Bool
  pub long : ℕ → Text → Bool
  pub validate : Dto → Values → List ValidationError
  pub validate-empty :
      (d : Dto) (v : Values) → (validate d v ≡ []) ↔ (is_valid email uuid long d v ≡ true)
