-- ===== src/Accounts/Growth.antt =====
-- The number of the next user only grows, whatever apps/auth/src/app/processors do and whatever
-- calls fail.
use trash.Prelude.{ℕ, ◌≤◌, Bool, not, Option, none, some, Text, arith}
use trash.Entity
use trash.Entity.{UserRow, OperationRow, OperationData, User, UserUpdate, Select, null}
use trash.Exceptions.{Exception, forbidden_exception, wrong_password, not_verify}
use trash.Runtime.{Runtime}
use trash.World.{World, Action}
use trash.Action.{call, start_transaction, commit_transaction, rollback_transaction}
use trash.Action.Along.{
  Preorder, Along, Along-pure, Along-raise, Along-bind, Along-then, Along-if, Along-try,
}
use trash.Database.{
  Runner, absent, present, find_user, get_uuid, find_operation, remove_operation, insert_user,
  update_user, insert_operation,
}
use trash.Users
use trash.Users.{EmailAuthCreateData, recover_own}
use trash.Cache
use trash.Sessions
use trash.Sessions.{JwtConfig, drop_all, delete}
use trash.Operations
use trash.Operations.{Options, in_transaction}
use trash.Operations.Target.{by_email, by_user}
use trash.Operations.SignUp
use trash.Operations.PasswordRecovery
use trash.Auth

module _ ⦃rt : Runtime⦄ where
  abbrev pub Grows : World → World → Type 0
  Grows w v = w.user_seq ≤ v.user_seq

  pub grows : Preorder Grows
  grows = record { same = λ w. omega arith; through = λ u v w p q. omega (arith, p, q) }

  pub find_user-Grows :
      (r : Runner) (test : UserRow → Bool) (columns : Select)
      → Along Grows (find_user r test columns)
  unfolding find_user call
  find_user-Grows r test columns = record { at = λ w. ground arith }

  pub sessions_create-Grows :
      (config : JwtConfig) (id : ℕ) → Along Grows (Sessions.create config id)
  unfolding Sessions.create Sessions.set get_uuid Cache.set call
  sessions_create-Grows config id = record { at = λ w. ground arith }

  pub start-Grows : Along Grows start_transaction
  unfolding start_transaction call
  start-Grows = record { at = λ w. ground arith }

  pub commit-Grows : Along Grows commit_transaction
  unfolding commit_transaction call
  commit-Grows = record { at = λ w. ground arith }

  pub rollback-Grows : Along Grows rollback_transaction
  unfolding rollback_transaction
  rollback-Grows = record { at = λ w. ground arith }

  close-Grows : (o : Options) (id : ℕ) → Along Grows (Operations.close o id present)
  unfolding Operations.close find_operation remove_operation call
  close-Grows o id = record { at = λ w. ground arith }

  create_user_operation-Grows :
      (o : Options) (id : ℕ) (content : OperationData)
      → Along Grows (Operations.create_user_operation o id content present)
  unfolding Operations.create_user_operation insert_operation get_uuid call
  create_user_operation-Grows o id content = record { at = λ w. ground arith }

  apply-Grows : (o : Options) (token : Text) → Along Grows (Operations.apply o token present)
  unfolding Operations.apply find_operation Operations.close remove_operation call
  apply-Grows o token = record { at = λ w. ground arith }

  update-Grows : (id : ℕ) (d : UserUpdate) → Along Grows (Users.update id d present)
  unfolding Users.update find_user update_user call
  update-Grows id d = record { at = λ w. ground arith }

  drop_all-Grows : (id : ℕ) → Along Grows (drop_all id)
  unfolding drop_all delete Cache.del call
  drop_all-Grows id = record { at = λ w. ground arith }

  insert_user-Grows : (n : Entity.NewUser) → Along Grows (insert_user present n)
  unfolding insert_user call
  insert_user-Grows n = record { at = λ w. ground arith }

  in_transaction-Grows :
      (body : Action (Option OperationRow)) → Along Grows body → Along Grows (in_transaction body)
  unfolding in_transaction
  in_transaction-Grows body c = Along-then grows start_transaction _ start-Grows (
      Along-try grows _ _
        (Along-bind grows body _ c
          (λ a. Along-then grows commit_transaction _ commit-Grows (Along-pure grows a)))
        (λ x. Along-then grows rollback_transaction _ rollback-Grows (Along-raise grows x)))

  start_own-Grows : (r : Runner) → Along Grows (Users.start_own r)
  start_own-Grows absent = start-Grows
  start_own-Grows present = Along-pure grows tt

  commit_own-Grows : (r : Runner) → Along Grows (Users.commit_own r)
  commit_own-Grows absent = commit-Grows
  commit_own-Grows present = Along-pure grows tt

  recover_own-Grows :
      {A : Type 0} (r : Runner) (x : Exception) → Along Grows (recover_own {A = A} r x)
  recover_own-Grows present x = Along-raise grows x
  recover_own-Grows absent x =
      Along-then grows rollback_transaction _ rollback-Grows (Along-pure grows none)

  operations_create-Grows :
      (o : Options) (id : ℕ) (content : OperationData) (r : Runner)
      → Along Grows (Operations.create o id content r)
  unfolding Operations.create
  operations_create-Grows o id content r =
      Along-then grows (Users.start_own r) _ (start_own-Grows r) (
        Along-try grows _ _
          (Along-then grows (Operations.close o id present) _ (close-Grows o id) (
            Along-bind grows (Operations.create_user_operation o id content present) _
              (create_user_operation-Grows o id content)
              (λ a.
                Along-then grows (Users.commit_own r) _ (commit_own-Grows r)
                  (Along-pure grows (some a)))))
          (recover_own-Grows r))

  sign_up_create-Grows :
      (found : Option User) (r : Runner) → Along Grows (SignUp.create_for r found)
  sign_up_create-Grows none r = Along-pure grows none
  sign_up_create-Grows (some u) r =
      Along-if grows (SignUp.is_refused (some u)) _ _ (Along-pure grows none)
        (operations_create-Grows SignUp.options u.id null r)

  recovery_create-Grows :
      (found : Option User) (r : Runner) → Along Grows (PasswordRecovery.create_for r found)
  recovery_create-Grows none r = Along-pure grows none
  recovery_create-Grows (some u) r =
      Along-if grows (not (PasswordRecovery.is_verified u)) _ _ (Along-pure grows none)
        (operations_create-Grows PasswordRecovery.options u.id null r)

  pub sign_up_by_email-Grows : (email : Text) → Along Grows (SignUp.create (by_email email) absent)
  unfolding SignUp.create
  sign_up_by_email-Grows email =
      Along-bind grows (find_user absent _ _) (SignUp.create_for absent)
        (find_user-Grows absent _ _) (λ found. sign_up_create-Grows found absent)

  pub sign_up_by_user-Grows : (u : User) → Along Grows (SignUp.create (by_user u) present)
  unfolding SignUp.create
  sign_up_by_user-Grows u =
      Along-bind grows _ (SignUp.create_for present) (Along-pure grows (some u))
        (λ found. sign_up_create-Grows found present)

  pub recovery_by_email-Grows :
      (email : Text) → Along Grows (PasswordRecovery.create (by_email email) absent)
  unfolding PasswordRecovery.create
  recovery_by_email-Grows email =
      Along-bind grows (find_user absent _ _) (PasswordRecovery.create_for absent)
        (find_user-Grows absent _ _) (λ found. recovery_create-Grows found absent)

  pub sign_up_apply-Grows : (token : Text) → Along Grows (SignUp.apply token)
  unfolding SignUp.apply
  sign_up_apply-Grows token =
      in_transaction-Grows (SignUp.apply_body token)
        (Along-bind grows _ _ (apply-Grows SignUp.options token) confirm)
    where
      confirm : (a : Option OperationRow) → Along Grows (SignUp.confirm a)
      confirm none = Along-pure grows none
      confirm (some r) =
          Along-then grows (Users.update r.user_id SignUp.verified present) _
            (update-Grows r.user_id SignUp.verified) (Along-pure grows (some r))

  pub recovery_apply-Grows :
      (token password : Text) → Along Grows (PasswordRecovery.apply token password)
  unfolding PasswordRecovery.apply
  recovery_apply-Grows token password =
      in_transaction-Grows (PasswordRecovery.apply_body token password)
        (Along-bind grows _ _ (apply-Grows PasswordRecovery.options token) set)
    where
      set : (a : Option OperationRow) → Along Grows (PasswordRecovery.set_password password a)
      set none = Along-pure grows none
      set (some r) =
          Along-then grows (Users.update r.user_id (PasswordRecovery.new_password password) present)
            _ (update-Grows r.user_id (PasswordRecovery.new_password password))
            (Along-then grows (drop_all r.user_id) _ (drop_all-Grows r.user_id)
              (Along-pure grows (some r)))

  pub sign_in-Grows :
      (config : JwtConfig) (email password : Text)
      → Along Grows (Auth.sign_in config email password)
  unfolding Auth.sign_in Users.auth_data
  sign_in-Grows config email password =
      Along-bind grows (find_user absent _ _) (Auth.admit config password)
        (find_user-Grows absent _ _) admitted
    where
      admitted : (found : Option User) → Along Grows (Auth.admit config password found)
      admitted none = Along-raise grows (forbidden_exception wrong_password)
      admitted (some user) =
          Along-if grows (not (Auth.password_compare user password)) _ _
            (Along-raise grows (forbidden_exception wrong_password))
            (Along-if grows (not (Auth.is_true user.email_verified)) _ _
              (Along-raise grows (forbidden_exception not_verify))
              (sessions_create-Grows config user.id))
