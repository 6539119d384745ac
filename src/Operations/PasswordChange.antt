-- ===== src/Operations/PasswordChange.antt =====
-- `UsersOperationsProcessorPasswordChange` of users_operations/password_change.
use trash.Prelude.{Option, none, some, Text}
use trash.Entity.{
  OperationRow, OperationData, User, UserUpdate, default_select, null, password_data, email_data,
  password_change,
}
use trash.Exceptions.{column_not_found, type_error}
use trash.Runtime.{Runtime}
use trash.World.{Action}
use trash.Action.{pure, raise, ◌>>=◌, ◌>>◌}
use trash.Database.{Runner, absent, present, find_user}
use trash.Sessions.{drop_all}
use trash.Users
use trash.Users.{has_email}
use trash.Operations
use trash.Operations.{Options, in_transaction}
use trash.Operations.Target.{Target, by_number, by_email, by_user, ttl_in_hours}

abbrev pub options : Options
options = record { kind = password_change; ttl_in_hours = ttl_in_hours }

module _ ⦃rt : Runtime⦄ where
  -- `users` has no column `user_id`.
  abbrev find_target : Target → Action (Option User)
  find_target (by_user u) = pure (some u)
  find_target (by_number n) = raise column_not_found
  find_target (by_email email) = find_user absent (has_email email) default_select

  abbrev create_for : OperationData → Runner → Option User → Action (Option OperationRow)
  create_for content runner none = pure none
  create_for content runner (some u) = Operations.create options u.id content runner

  unfoldable pub create : Target → Option Text → Runner → Action (Option OperationRow)
  create user password runner = do
    found ← find_target user
    create_for (password_data password) runner found

  -- `(<IPasswordChangeData>userOperation.data).password`
  abbrev pub password_of : OperationData → Action (Option Text)
  password_of null = raise type_error
  password_of (password_data p) = pure p
  password_of (email_data e) = pure none

  abbrev pub new_password : Option Text → UserUpdate
  new_password p = record { email = none; email_verified = none; password = p }

  abbrev pub set_password : Option OperationRow → Action (Option OperationRow)
  set_password none = pure none
  set_password (some operation) = do
    password ← password_of operation.content
    Users.update operation.user_id (new_password password) present
    drop_all operation.user_id
    pure (some operation)

  abbrev pub apply_body : Text → Action (Option OperationRow)
  apply_body token = do operation ← Operations.apply options token present; set_password operation

  unfoldable pub apply : Text → Action (Option OperationRow)
  apply token = in_transaction (apply_body token)
