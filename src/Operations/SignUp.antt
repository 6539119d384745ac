-- ===== src/Operations/SignUp.antt =====
-- `UsersOperationsProcessorSignUp` of users_operations/sign_up.
use trash.Prelude.{Bool, true, false, Option, none, some, Text, if◌then◌else◌}
use trash.Entity.{OperationRow, User, UserUpdate, default_select, null, sign_up}
use trash.Exceptions.{column_not_found}
use trash.Runtime.{Runtime}
use trash.World.{Action}
use trash.Action.{pure, raise, ◌>>=◌, ◌>>◌}
use trash.Database.{Runner, absent, present, find_user}
use trash.Users
use trash.Users.{has_email}
use trash.Operations
use trash.Operations.{Options, in_transaction}
use trash.Operations.Target.{Target, by_number, by_email, by_user, ttl_in_hours}

abbrev pub options : Options
options = record { kind = sign_up; ttl_in_hours = ttl_in_hours }

abbrev pub verified : UserUpdate
verified = record { email = none; email_verified = some true; password = none }

-- `!_user || _user.email_verified`
abbrev pub is_refused : Option User → Bool
is_refused none = true
is_refused (some u) = is_true u.email_verified
  where
    is_true : Option Bool → Bool
    is_true none = false
    is_true (some b) = b

module _ ⦃rt : Runtime⦄ where
  -- `users` has no column `user_id`.
  abbrev find_target : Target → Action (Option User)
  find_target (by_user u) = pure (some u)
  find_target (by_number n) = raise column_not_found
  find_target (by_email email) = find_user absent (has_email email) default_select

  abbrev pub create_for : Runner → Option User → Action (Option OperationRow)
  create_for runner none = pure none
  create_for runner (some u) =
      if is_refused (some u) then pure none else Operations.create options u.id null runner

  unfoldable pub create : Target → Runner → Action (Option OperationRow)
  create user runner = do found ← find_target user; create_for runner found

  abbrev pub confirm : Option OperationRow → Action (Option OperationRow)
  confirm none = pure none
  confirm (some operation) = do
    Users.update operation.user_id verified present
    pure (some operation)

  abbrev pub apply_body : Text → Action (Option OperationRow)
  apply_body token = do operation ← Operations.apply options token present; confirm operation

  unfoldable pub apply : Text → Action (Option OperationRow)
  apply token = in_transaction (apply_body token)
