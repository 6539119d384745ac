-- ===== src/Routes.antt =====
-- `AuthController` of apps/auth/src/app/routes/v1/auth/auth.controller.ts, between
-- `ResponseInterceptor` of apps/auth/src/app/interceptors and `AppExceptionsFilter`. The DTOs'
-- validation, the throttling and the routing are not modelled here.
pub mod Refusals
use trash.Prelude.{ℕ, List, Text}
use trash.Runtime.{Runtime, Session}
use trash.World.{Result, ok, err, World, Action}
use trash.Action.{pure, ◌>>=◌, ◌>>◌}
use trash.Users.{EmailAuthCreateData}
use trash.Sessions.{JwtConfig, JwtResponse}
use trash.Notifications.{Service}
use trash.Filter.{ResponseError, catch_exception}
use trash.Auth

-- A request that the guards and the pipes let through; that of `refresh` carries the session.
pub data Request : Type 0 where
  refresh : Session → Request
  sign_up : EmailAuthCreateData → Request
  sign_up_confirm : Text → Request
  sign_in : Text → Text → Request
  sign_up_resend : Text → Request
  password_recovery : Text → Request
  password_recovery_confirm : Text → Text → Request

-- What a method of the controller returns.
pub data Value : Type 0 where
  undefined : Value
  tokens : JwtResponse → Value

-- `{ ok: true, result }` or `{ ok: false, result }`.
pub data Response : Type 0 where
  answered : Value → Response
  refused : ResponseError → Response

module _ ⦃rt : Runtime⦄ where
  abbrev returning : Action JwtResponse → Action Value
  returning m = do t ← m; pure (tokens t)

  abbrev finishing : Action (Unit {0}) → Action Value
  finishing m = m >> pure undefined

  unfoldable pub control : JwtConfig → List Service → Request → Action Value
  control config services (refresh s) = returning (Auth.refresh config s)
  control config services (sign_up payload) = finishing (Auth.sign_up services payload)
  control config services (sign_up_confirm token) = finishing (Auth.sign_up_confirm token)
  control config services (sign_in email password) = returning (Auth.sign_in config email password)
  control config services (sign_up_resend email) = finishing (Auth.sign_up_resend services email)
  control config services (password_recovery email) =
      finishing (Auth.password_recovery services email)
  control config services (password_recovery_confirm token password) =
      finishing (Auth.password_recovery_confirm token password)

  -- The interceptor on a value, the filter on an exception.
  abbrev pub respond : Result Value × World → Response × World
  respond (ok v, w) = (answered v, w)
  respond (err x, w) = (refused (catch_exception w.now x), w)

  unfoldable pub handle : JwtConfig → List Service → Request → World → Response × World
  handle config services request w = respond (control config services request w)
