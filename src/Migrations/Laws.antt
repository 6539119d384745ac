-- ===== src/Migrations/Laws.antt =====
-- The enum of users_operations.entity.ts against the column that the migration makes for it, and
-- what the migrations take back.
use trash.Prelude.{ℕ, ◌≤◌, ◌≡◌, Option, none, some, Text, text_eq, length, arith}
use trash.Entity.{
  OperationType, sign_up, sign_up_confirm, password_recovery, password_change, email_change,
  email_sign, same_kind,
}
use trash.Migrations.{Column, type_text}
use trash.Migrations.CreateUsersOperations.{type_column}

-- The text fits into a `varchar` of the column's length.
abbrev pub Fits : Column → Text → Type 0
Fits c s = limited c.length
  where
    limited : Option ℕ → Type 0
    limited none = Unit {0}
    limited (some n) = length s ≤ n

type_text-Fits : (t : OperationType) → Fits type_column (type_text t)
unfolding type_text
type_text-Fits sign_up = omega arith
type_text-Fits sign_up_confirm = omega arith
type_text-Fits password_recovery = omega arith
type_text-Fits password_change = omega arith
type_text-Fits email_change = omega arith
type_text-Fits email_sign = omega arith

type_text-same : (t u : OperationType) → text_eq (type_text t) (type_text u) ≡ same_kind t u
unfolding type_text text_eq same_kind
type_text-same sign_up u = ground arith
type_text-same sign_up_confirm u = ground arith
type_text-same password_recovery u = ground arith
type_text-same password_change u = ground arith
type_text-same email_change u = ground arith
type_text-same email_sign u = ground arith

-- The text of an operation's type fits into the column that the migration makes for it, and two
-- types are stored as the same text just when they are the same.
pub type_text_lem :
    (t u : OperationType)
    → Fits type_column (type_text t) × (text_eq (type_text t) (type_text u) ≡ same_kind t u)
type_text_lem t u = (type_text-Fits t, type_text-same t u)
