-- ===== src/Operations/Bodies.antt =====
-- The bodies of the four `apply` methods of users_operations and the transaction that they run in.
use trash.Prelude.{ℕ, Option, none, some, Text, arith}
use trash.Entity.{OperationRow, OperationData, UserUpdate, null, password_data, email_data}
use trash.Runtime.{Runtime}
use trash.Action.{call}
use trash.Action.Confined.{Confined, Confined-pure, Confined-raise, Confined-bind, Confined-then}
use trash.Database.{present, find_operation, remove_operation, find_user, update_user, count_users}
use trash.Users
use trash.Cache
use trash.Sessions.{drop_all, delete}
use trash.Operations
use trash.Operations.{Options, in_transaction}
use trash.Operations.SignUp
use trash.Operations.PasswordRecovery
use trash.Operations.PasswordChange
use trash.Operations.EmailChange

module _ ⦃rt : Runtime⦄ where
  pub close-Confined : (o : Options) (user_id : ℕ) → Confined (Operations.close o user_id present)
  unfolding Operations.close find_operation remove_operation call
  close-Confined o user_id = record { at = λ v w i. ground arith }

  pub apply-Confined : (o : Options) (token : Text) → Confined (Operations.apply o token present)
  unfolding Operations.apply find_operation Operations.close remove_operation call
  apply-Confined o token = record { at = λ v w i. ground arith }

  pub update-Confined : (user_id : ℕ) (d : UserUpdate) → Confined (Users.update user_id d present)
  unfolding Users.update find_user update_user call
  update-Confined user_id d = record { at = λ v w i. ground arith }

  pub drop_all-Confined : (user_id : ℕ) → Confined (drop_all user_id)
  unfolding drop_all delete Cache.del call
  drop_all-Confined user_id = record { at = λ v w i. ground arith }

  pub checkout_email-Confined : (email : Option Text) → Confined (EmailChange.checkout_email email)
  unfolding EmailChange.checkout_email count_users call
  checkout_email-Confined email = record { at = λ v w i. ground arith }

  ruleset confined = (
    Confined-pure, Confined-raise, Confined-bind, Confined-then, apply-Confined, update-Confined,
    drop_all-Confined, checkout_email-Confined,
  )

  confirm-Confined : (a : Option OperationRow) → Confined (SignUp.confirm a)
  confirm-Confined none = search confined
  confirm-Confined (some r) = search confined

  set_recovered-Confined :
      (password : Text) (a : Option OperationRow)
      → Confined (PasswordRecovery.set_password password a)
  set_recovered-Confined password none = search confined
  set_recovered-Confined password (some r) = search confined

  password_of-Confined : (d : OperationData) → Confined (PasswordChange.password_of d)
  password_of-Confined null = search confined
  password_of-Confined (password_data p) = search confined
  password_of-Confined (email_data e) = search confined

  set_changed-Confined : (a : Option OperationRow) → Confined (PasswordChange.set_password a)
  set_changed-Confined none = search confined
  set_changed-Confined (some r) = search (confined, password_of-Confined)

  email_of-Confined : (d : OperationData) → Confined (EmailChange.email_of d)
  email_of-Confined null = search confined
  email_of-Confined (password_data p) = search confined
  email_of-Confined (email_data e) = search confined

  set_email-Confined : (a : Option OperationRow) → Confined (EmailChange.set_email a)
  set_email-Confined none = search confined
  set_email-Confined (some r) = search (confined, email_of-Confined)

  pub sign_up_body-Confined : (token : Text) → Confined (SignUp.apply_body token)
  sign_up_body-Confined token =
      Confined-bind _ _ (apply-Confined SignUp.options token) confirm-Confined

  pub recovery_body-Confined :
      (token password : Text) → Confined (PasswordRecovery.apply_body token password)
  recovery_body-Confined token password =
      Confined-bind _ _ (apply-Confined PasswordRecovery.options token)
        (set_recovered-Confined password)

  pub change_body-Confined : (token : Text) → Confined (PasswordChange.apply_body token)
  change_body-Confined token =
      Confined-bind _ _ (apply-Confined PasswordChange.options token) set_changed-Confined

  pub email_body-Confined : (token : Text) → Confined (EmailChange.apply_body token)
  email_body-Confined token =
      Confined-bind _ _ (apply-Confined EmailChange.options token) set_email-Confined
