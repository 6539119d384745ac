-- ===== src/Operations/PasswordRecovery.antt =====
-- `UsersOperationsProcessorPasswordRecovery` of users_operations/password_recovery.
use trash.Prelude.{Bool, true, false, not, Option, none, some, Text, if◌then◌else◌}
use trash.Entity.{OperationRow, User, UserUpdate, Select, null, password_recovery}
use trash.Runtime.{Runtime}
use trash.World.{Action}
use trash.Action.{pure, ◌>>=◌, ◌>>◌}
use trash.Database.{Runner, absent, present, find_user}
use trash.Sessions.{drop_all}
use trash.Users
use trash.Users.{has_email, has_id}
use trash.Operations
use trash.Operations.{Options, in_transaction}
use trash.Operations.Target.{Target, by_number, by_email, by_user, ttl_in_hours}

abbrev pub options : Options
options = record { kind = password_recovery; ttl_in_hours = ttl_in_hours }

abbrev pub new_password : Text → UserUpdate
new_password p = record { email = none; email_verified = none; password = some p }

abbrev pub is_verified : User → Bool
is_verified u = is_true u.email_verified
  where
    is_true : Option Bool → Bool
    is_true none = false
    is_true (some b) = b

-- `['email_verified', 'id']` and `['email_verified', 'id', 'email']`
abbrev by_number_select : Select
by_number_select = record { with_email = false; with_password = false; with_email_verified = true }

abbrev pub by_email_select : Select
by_email_select = record { with_email = true; with_password = false; with_email_verified = true }

module _ ⦃rt : Runtime⦄ where
  abbrev find_target : Target → Action (Option User)
  find_target (by_user u) = pure (some u)
  find_target (by_number n) = find_user absent (has_id n) by_number_select
  find_target (by_email email) = find_user absent (has_email email) by_email_select

  abbrev pub create_for : Runner → Option User → Action (Option OperationRow)
  create_for runner none = pure none
  create_for runner (some u) =
      if not (is_verified u) then pure none else Operations.create options u.id null runner

  unfoldable pub create : Target → Runner → Action (Option OperationRow)
  create user runner = do found ← find_target user; create_for runner found

  abbrev pub set_password : Text → Option OperationRow → Action (Option OperationRow)
  set_password password none = pure none
  set_password password (some operation) = do
    Users.update operation.user_id (new_password password) present
    drop_all operation.user_id
    pure (some operation)

  abbrev pub apply_body : Text → Text → Action (Option OperationRow)
  apply_body token password = do
    operation ← Operations.apply options token present
    set_password password operation

  unfoldable pub apply : Text → Text → Action (Option OperationRow)
  apply token password = in_transaction (apply_body token password)
