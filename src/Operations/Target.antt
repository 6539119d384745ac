-- ===== src/Operations/Target.antt =====
-- What the `create` methods of the four processors in
-- apps/auth/src/app/processors/users_operations share: `user: number | string | User`.
use trash.Prelude.{ℕ, Text}
use trash.Entity.{User}

pub data Target : Type 0 where
  by_number : ℕ → Target
  by_email : Text → Target
  by_user : User → Target

-- config/user_operations.ts: each operation is open for 3 * 24 hours.
abbrev pub ttl_in_hours : ℕ
ttl_in_hours = 72
