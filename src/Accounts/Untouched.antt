-- ===== src/Accounts/Untouched.antt =====
-- The actions of apps/auth/src/app/processors that leave the table `users` alone.
use trash.Prelude.{ℕ, ◌≡◌, refl, sym, ap, ◌∙◌, Bool, not, Option, none, some, List, Text, arith}
use trash.Entity.{UserRow, OperationRow, OperationData, User, Select, null}
use trash.Exceptions.{forbidden_exception, wrong_password, not_verify}
use trash.Runtime.{Runtime}
use trash.World.{Result, ok, err, Db, World}
use trash.Action.{call}
use trash.Action.Along.{Preorder, Along, Along-pure, Along-raise, Along-bind, Along-if}
use trash.Database.{absent, find_user, get_uuid}
use trash.Users
use trash.Users.{EmailAuthCreateData, has_email}
use trash.Cache
use trash.Sessions
use trash.Sessions.{JwtConfig}
use trash.Operations
use trash.Operations.{Options, of_user}
use trash.Operations.Target.{by_email}
use trash.Operations.SignUp
use trash.Operations.PasswordRecovery
use trash.Operations.Outcomes.{create-Ended}
use trash.Operations.Unique.{create-some}
use trash.Notifications.{Service, Event, Payload, broadcast}
use trash.Notifications.Laws.{broadcast_total}
use trash.Auth
use trash.Auth.Making.{AllQuiet, after_all-committed}
use trash.Invariant.Tables.{users_same}

module _ ⦃rt : Runtime⦄ where
  abbrev pub SameUsers : World → World → Type 0
  SameUsers w v = v.committed.users ≡ w.committed.users

  pub users : Preorder SameUsers
  users = record { same = λ w. refl; through = λ u v w p q. q ∙ p }

  pub find_user-SameUsers :
      (test : UserRow → Bool) (columns : Select) → Along SameUsers (find_user absent test columns)
  unfolding find_user call
  find_user-SameUsers test columns = record { at = λ w. ground arith }

  pub sessions_create-SameUsers :
      (config : JwtConfig) (id : ℕ) → Along SameUsers (Sessions.create config id)
  unfolding Sessions.create Sessions.set get_uuid Cache.set call
  sessions_create-SameUsers config id = record { at = λ w. ground arith }

  pub broadcast-SameUsers :
      (services : List Service) (e : Event) (p : Payload)
      → AllQuiet services
      → Along SameUsers (broadcast services e p)
  broadcast-SameUsers services e p q = record {
    at = λ w.
        rw (broadcast_total services e p w)
          (ap (λ (db : Db). db.users) (after_all-committed services e p w q));
  }

  pub operations_create-SameUsers :
      (o : Options) (user : ℕ) (content : OperationData)
      → Along SameUsers (Operations.create o user content absent)
  operations_create-SameUsers o user content = record {
    at = λ w. by_result w (Operations.create o user content absent w) refl;
  }
    where
      by_result :
          (w : World) (r : Result (Option OperationRow) × World)
          → Operations.create o user content absent w ≡ r
          → r.1.committed.users ≡ w.committed.users
      by_result w (ok (some a), v) e =
          let (is_new, done, _) = create-some o user content w a v e in
          ap (λ (db : Db). db.users) done
          ∙ users_same (rt.operations.find (of_user user o.kind) w.committed.operations) a
              w.committed
      by_result w (ok none, v) e =
          ap (λ (r : Result (Option OperationRow) × World). r.1.committed.users) (sym e)
          ∙ ap (λ (db : Db). db.users)
              ((create-Ended o user content w).no_operation
                (ap (λ (r : Result (Option OperationRow) × World). r.0) e))
      by_result w (err x, v) e =
          ap (λ (r : Result (Option OperationRow) × World). r.1.committed.users) (sym e)
          ∙ ap (λ (db : Db). db.users)
              ((create-Ended o user content w).failed x
                (ap (λ (r : Result (Option OperationRow) × World). r.0) e))

  pub sign_in-SameUsers :
      (config : JwtConfig) (email password : Text)
      → Along SameUsers (Auth.sign_in config email password)
  unfolding Auth.sign_in Users.auth_data
  sign_in-SameUsers config email password =
      Along-bind users (find_user absent _ _) (Auth.admit config password) (find_user-SameUsers _ _)
        admitted
    where
      admitted : (found : Option User) → Along SameUsers (Auth.admit config password found)
      admitted none = Along-raise users (forbidden_exception wrong_password)
      admitted (some user) =
          Along-if users (not (Auth.password_compare user password)) _ _
            (Along-raise users (forbidden_exception wrong_password))
            (Along-if users (not (Auth.is_true user.email_verified)) _ _
              (Along-raise users (forbidden_exception not_verify))
              (sessions_create-SameUsers config user.id))

  pub sign_up_create-SameUsers :
      (email : Text) → Along SameUsers (SignUp.create (by_email email) absent)
  unfolding SignUp.create
  sign_up_create-SameUsers email =
      Along-bind users (find_user absent _ _) (SignUp.create_for absent) (find_user-SameUsers _ _)
        made
    where
      made : (found : Option User) → Along SameUsers (SignUp.create_for absent found)
      made none = Along-pure users none
      made (some u) =
          Along-if users (SignUp.is_refused (some u)) _ _ (Along-pure users none)
            (operations_create-SameUsers SignUp.options u.id null)

  pub password_recovery_create-SameUsers :
      (email : Text) → Along SameUsers (PasswordRecovery.create (by_email email) absent)
  unfolding PasswordRecovery.create
  password_recovery_create-SameUsers email =
      Along-bind users (find_user absent _ _) (PasswordRecovery.create_for absent)
        (find_user-SameUsers _ _) made
    where
      made : (found : Option User) → Along SameUsers (PasswordRecovery.create_for absent found)
      made none = Along-pure users none
      made (some u) =
          Along-if users (not (PasswordRecovery.is_verified u)) _ _ (Along-pure users none)
            (operations_create-SameUsers PasswordRecovery.options u.id null)
