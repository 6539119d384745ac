-- ===== src/Gateway.antt =====
-- What a request passes before the controller of apps/auth/src/app/routes/v1/auth: the throttler of
-- routes/rate_limit/rate_limit.module.ts and auth/guards/throttler.proxy.guard.ts, then
-- `AppValidationPipe` of libs/utils/src/app.validation.pipe.ts with the DTOs of auth.dto.ts. The
-- throttler itself and the validator are of packages, and parameters here; `refresh` is given the
-- session that its guard lets through. The query is checked before the body.
pub mod Rules
pub mod Laws
pub mod Refines
pub mod Runs
pub mod Kept
use trash.Prelude.{
  join, ℕ, Bool, true, false, ◌&&◌, Option, none, some, List, [], ◌∷◌, ◌++◌, map, Text, codes,
  if◌then◌else◌,
}
use trash.Entity.{from}
use trash.Exceptions.{Exception, http, text}
use trash.Runtime.{Runtime, Session}
use trash.World.{World, Action}
use trash.Action.{pure, raise, ◌>>=◌, ◌>>◌}
use trash.Sessions.{JwtConfig}
use trash.Notifications.{Service}
use trash.Routes
use trash.Routes.{Response, control, respond}
use trash.Gateway.Rules.{
  Field, Values, field_text, Dto, Validator, ValidationError, is_valid, sign_up_dto, token_dto,
  sign_in_dto, password_recovery_dto, password_recovery_confirm_dto, sign_up_resend_dto, email_key,
  password_key, token_key,
}

-- The methods of `AuthController`.
pub data Route : Type 0 where
  refresh : Session → Route
  sign_up sign_up_confirm sign_in sign_up_resend password_recovery password_recovery_confirm : Route

pub data Method : Type 0 where
  get post put : Method

pub record Incoming : Type 0 where
  pub route : Route
  pub query : Values
  pub body : Values
  pub forwarded_for : Option Text
  pub ip : Text

abbrev pub method : Route → Method
method (refresh s) = get
method sign_up = post
method sign_up_confirm = get
method sign_in = post
method sign_up_resend = post
method password_recovery = post
method password_recovery_confirm = put

pub record Limit : Type 0 where
  pub limit : ℕ
  pub rate : ℕ

-- `@Throttle`, or the module's own.
abbrev pub rate_limit : Route → Limit
rate_limit sign_up_resend = record { limit = 1; rate = 60 }
rate_limit password_recovery = record { limit = 1; rate = 60 }
rate_limit _ = record { limit = 5; rate = 60 }

-- `getTracker`
abbrev pub get_tracker : Incoming → Text
get_tracker i = from i.forwarded_for i.ip

-- `skipIf`, of a request by HTTP.
abbrev pub skip_if : Method → Bool
skip_if get = true
skip_if _ = false

abbrev pub query_dto : Route → Dto
query_dto sign_up_confirm = token_dto
query_dto password_recovery_confirm = token_dto
query_dto _ = []

abbrev pub body_dto : Route → Dto
body_dto sign_up = sign_up_dto
body_dto sign_in = sign_in_dto
body_dto sign_up_resend = sign_up_resend_dto
body_dto password_recovery = password_recovery_dto
body_dto password_recovery_confirm = password_recovery_confirm_dto
body_dto _ = []

-- The arguments of the controller's method.
abbrev pub request_of : Route → Values → Values → Routes.Request
request_of (refresh s) query body = Routes.Request.refresh s
request_of sign_up query body =
    Routes.Request.sign_up
      (record { email = field_text (body email_key); password = field_text (body password_key) })
request_of sign_up_confirm query body =
    Routes.Request.sign_up_confirm (field_text (query token_key))
request_of sign_in query body =
    Routes.Request.sign_in (field_text (body email_key)) (field_text (body password_key))
request_of sign_up_resend query body = Routes.Request.sign_up_resend (field_text (body email_key))
request_of password_recovery query body =
    Routes.Request.password_recovery (field_text (body email_key))
request_of password_recovery_confirm query body =
    Routes.Request.password_recovery_confirm (field_text (query token_key))
      (field_text (body password_key))

abbrev pub error_message : ValidationError → Text
error_message e = e.property ++ codes ": " ++ join (codes ", ") e.constraints

module _ ⦃rt : Runtime⦄ where
  -- `AppValidationPipe.transform`, of what `validate` returns.
  abbrev pub refuse_errors : List ValidationError → Action (Unit {0})
  refuse_errors [] = pure tt
  refuse_errors (e ∷ es) = raise (
      http
        (record { status = 400; response = text (join (codes ", ") (map error_message (e ∷ es))) }))

  unfoldable pub transform : Validator → Dto → Values → Action (Unit {0})
  transform v dto values = refuse_errors (v.validate dto values)

  -- The throttler of the package: the method, its limit and the tracker of the client.
  abbrev pub Throttler : Type 0
  Throttler = Route → Limit → Text → Action (Unit {0})

  unfoldable pub throttled : Throttler → Incoming → Action (Unit {0})
  throttled throttler i =
      if skip_if (method i.route)
      then pure tt
      else throttler i.route (rate_limit i.route) (get_tracker i)

  -- The whole way of a request.
  unfoldable pub receive :
      Validator → Throttler → JwtConfig → List Service → Incoming → World → Response × World
  receive v throttler config services i w = respond (
      (do
        throttled throttler i
        transform v (query_dto i.route) i.query
        transform v (body_dto i.route) i.body
        control config services (request_of i.route i.query i.body))
        w)
