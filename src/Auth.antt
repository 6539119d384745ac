-- ===== src/Auth.antt =====
-- `AuthService` of apps/auth/src/app/routes/v1/auth/auth.service.ts, which the methods of
-- `AuthController` hand their arguments to. The DTOs' validation is class-validator's.
pub mod Atomic
pub mod Making
pub mod Stored
pub mod Once
pub mod SignIn
pub mod Lockout
pub mod Confirmable
pub mod Journey
pub mod Forgotten
use trash.Prelude.{
  ℕ, Bool, true, false, not, Option, none, some, List, [], ◌∷◌, Text, truthy, ◌==◌, ◌&&◌, codes,
  ◌++◌, if◌then◌else◌,
}
use trash.Entity.{OperationRow, User, from}
use trash.Exceptions.{
  Exception, bad_request_exception, user_already_exists, not_found_exception, operation_not_found,
  forbidden_exception, wrong_password, not_verify, type_error,
}
use trash.Runtime.{Runtime, Session}
use trash.World.{Action}
use trash.Action.{
  pure, raise, ◌>>=◌, ◌>>◌, try_catch, start_transaction, commit_transaction, rollback_transaction,
}
use trash.Database.{absent, present}
use trash.Users
use trash.Users.{EmailAuthCreateData}
use trash.Sessions
use trash.Sessions.{JwtConfig, JwtResponse}
use trash.Operations.SignUp
use trash.Operations.PasswordRecovery
use trash.Operations.Target.{by_email, by_user}
use trash.Notifications.{Service, Payload, broadcast, signed_up, password_recovered}

-- `password.replace(/^\$2y/, '$2a')`
abbrev pub normalized : Text → Text
normalized (a ∷ b ∷ c ∷ s) =
    if a == b'$' && b == b'2' && c == b'y' then codes "$2a" ++ s else a ∷ b ∷ c ∷ s
normalized s = s

module _ ⦃rt : Runtime⦄ where
  -- `User.passwordCompare`
  unfoldable pub password_compare : User → Text → Bool
  password_compare u pwd =
      if truthy u.password then rt.matches pwd (normalized (from u.password [])) else false

  unfoldable pub refresh : JwtConfig → Session → Action JwtResponse
  refresh config s = Sessions.create config s.user_id

  abbrev pub refuse_existing : Option User → Action (Unit {0})
  refuse_existing none = pure tt
  refuse_existing (some u) = raise (bad_request_exception user_already_exists)

  -- `user.email`, where `user` may be `undefined`.
  abbrev pub required {ℓ} : {A : Type ℓ} → Option A → Action A
  required none = raise type_error
  required (some a) = pure a

  -- The body of the `try`.
  abbrev pub sign_up_body : List Service → EmailAuthCreateData → Action (Unit {0})
  sign_up_body services payload = do
    created ← Users.create payload present
    user ← required created
    made ← SignUp.create (by_user user) present
    operation ← required made
    commit_transaction
    email ← required user.email
    broadcast services signed_up (record { email = rt.lower email; token = operation.token })

  unfoldable pub sign_up : List Service → EmailAuthCreateData → Action (Unit {0})
  sign_up services payload = do
    user ← Users.auth_data payload.email
    refuse_existing user
    start_transaction
    try_catch (sign_up_body services payload) (λ x. rollback_transaction >> raise x)

  abbrev pub confirmed : Option OperationRow → Action (Unit {0})
  confirmed none = raise (not_found_exception operation_not_found)
  confirmed (some operation) = pure tt

  unfoldable pub sign_up_confirm : Text → Action (Unit {0})
  sign_up_confirm token = do operation ← SignUp.apply token; confirmed operation

  abbrev pub is_true : Option Bool → Bool
  is_true none = false
  is_true (some b) = b

  abbrev pub admit : JwtConfig → Text → Option User → Action JwtResponse
  admit config password none = raise (forbidden_exception wrong_password)
  admit config password (some user) =
      if not (password_compare user password)
      then raise (forbidden_exception wrong_password)
      else if not (is_true user.email_verified)
      then raise (forbidden_exception not_verify)
      else Sessions.create config user.id

  unfoldable pub sign_in : JwtConfig → Text → Text → Action JwtResponse
  unfolding password_compare
  sign_in config email password = do user ← Users.auth_data email; admit config password user

  abbrev pub notify_recovery : List Service → Text → Option OperationRow → Action (Unit {0})
  notify_recovery services email none = pure tt
  notify_recovery services email (some operation) =
      broadcast services password_recovered (record { email = email; token = operation.token })

  unfoldable pub password_recovery : List Service → Text → Action (Unit {0})
  password_recovery services email = do
    operation ← PasswordRecovery.create (by_email email) absent
    notify_recovery services email operation

  unfoldable pub password_recovery_confirm : Text → Text → Action (Unit {0})
  password_recovery_confirm token password = do PasswordRecovery.apply token password; pure tt

  abbrev pub notify_sign_up : List Service → Text → Option OperationRow → Action (Unit {0})
  notify_sign_up services email none = pure tt
  notify_sign_up services email (some operation) =
      broadcast services signed_up (record { email = rt.lower email; token = operation.token })

  unfoldable pub sign_up_resend : List Service → Text → Action (Unit {0})
  sign_up_resend services email = do
    operation ← SignUp.create (by_email (rt.lower email)) absent
    notify_sign_up services email operation
