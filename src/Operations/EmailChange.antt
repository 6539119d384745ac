-- ===== src/Operations/EmailChange.antt =====
-- `UsersOperationsProcessorEmailChange` of users_operations/email_change.
use trash.Prelude.{ℕ, zero, suc, Bool, true, not, Option, none, some, Text, truthy, if◌then◌else◌}
use trash.Entity.{
  UserRow, OperationRow, OperationData, User, UserUpdate, select_all, null, password_data,
  email_data, email_change,
}
use trash.Exceptions.{bad_request_exception, user_already_exists, type_error}
use trash.Runtime.{Runtime}
use trash.World.{Action}
use trash.Action.{pure, raise, ◌>>=◌, ◌>>◌}
use trash.Database.{Runner, absent, present, find_user, count_users}
use trash.Sessions.{drop_all}
use trash.Users
use trash.Users.{has_email, has_id}
use trash.Operations
use trash.Operations.{Options, in_transaction}
use trash.Operations.Target.{Target, by_number, by_email, by_user, ttl_in_hours}

abbrev pub options : Options
options = record { kind = email_change; ttl_in_hours = ttl_in_hours }

-- A `where` with an undefined value is no condition.
abbrev pub has_some_email : Option Text → UserRow → Bool
has_some_email none r = true
has_some_email (some email) r = has_email email r

module _ ⦃rt : Runtime⦄ where
  abbrev refuse_taken : ℕ → Action (Unit {0})
  refuse_taken zero = pure tt
  refuse_taken (suc n) = raise (bad_request_exception user_already_exists)

  -- `_checkoutEmail`
  unfoldable pub checkout_email : Option Text → Action (Unit {0})
  checkout_email email = do
    is_email ← count_users absent (has_some_email email)
    refuse_taken is_email

  abbrev find_target : Target → Action (Option User)
  find_target (by_user u) = pure (some u)
  find_target (by_number n) = find_user absent (has_id n) select_all
  find_target (by_email email) = find_user absent (has_email email) select_all

  abbrev create_for : Option Text → Runner → Option User → Action (Option OperationRow)
  create_for email runner none = pure none
  create_for email runner (some u) =
      if not (truthy u.password)
      then pure none
      else do checkout_email email; Operations.create options u.id (email_data email) runner

  unfoldable pub create : Target → Option Text → Runner → Action (Option OperationRow)
  create user email runner = do found ← find_target user; create_for email runner found

  -- `(<IEmailChangeData>userOperation.data).email`
  abbrev pub email_of : OperationData → Action (Option Text)
  email_of null = raise type_error
  email_of (password_data p) = pure none
  email_of (email_data e) = pure e

  abbrev pub new_email : Option Text → UserUpdate
  new_email e = record { email = e; email_verified = none; password = none }

  abbrev pub set_email : Option OperationRow → Action (Option OperationRow)
  set_email none = pure none
  set_email (some operation) = do
    email ← email_of operation.content
    checkout_email email
    Users.update operation.user_id (new_email email) present
    drop_all operation.user_id
    pure (some operation)

  abbrev pub apply_body : Text → Action (Option OperationRow)
  apply_body token = do operation ← Operations.apply options token present; set_email operation

  unfoldable pub apply : Text → Action (Option OperationRow)
  apply token = in_transaction (apply_body token)
