-- ===== src/Sessions/Strategies.antt =====
-- The JWT strategies of apps/auth/src/app/auth/strategies and the guards of auth/guards. The
-- token's signature and expiry are the runtime's `verify`.
use trash.Prelude.{Bool, true, Option, none, some, List, [], ◌∷◌, Text, codes}
use trash.Entity.{UserRow, User, default_select}
use trash.Exceptions.{Exception, http, object, unauthorized_exception, invalid_session}
use trash.Runtime.{Runtime, Json, session, string, Algorithm, hs256, rs256}
use trash.World.{Action}
use trash.Action.{pure, raise, gets, ◌>>=◌, ◌>>◌}
use trash.Database.{absent, find_user}
use trash.Users.{has_id}
use trash.Sessions
use trash.Sessions.{JwtConfig, by_id}

-- Nest's own `new UnauthorizedException()`.
abbrev pub nest_unauthorized : Exception
nest_unauthorized =
    http (record { status = 401; response = object (some (codes "Unauthorized")) none })

-- `findOne(session.userId)`: a text has no `userId`, and `findOne(undefined)` takes any row.
abbrev pub is_owner : Json → UserRow → Bool
is_owner (session s) r = has_id s.user_id r
is_owner (string t) r = true

module _ ⦃rt : Runtime⦄ where
  abbrev live_user : Text → Json → Option User → Action (Option Json)
  live_user id s none = do
    Sessions.delete (by_id id)
    raise (unauthorized_exception invalid_session)
  live_user id s (some user) = pure (some s)

  abbrev live_session : Text → Option Json → Action (Option Json)
  live_session id none = raise (unauthorized_exception invalid_session)
  live_session id (some s) = do
    user ← find_user absent (is_owner s) default_select
    live_user id s user

  -- `JwtAccessStrategy.validate`, of the `id` in the payload.
  unfoldable pub access_validate : Option Text → Action (Option Json)
  access_validate none = pure none
  access_validate (some []) = pure none
  access_validate (some (c ∷ id)) = do found ← Sessions.get (c ∷ id); live_session (c ∷ id) found

  -- `JwtRefreshStrategy.validate`
  unfoldable pub refresh_validate : Option Text → Action (Option Json)
  refresh_validate none = pure none
  refresh_validate (some []) = pure none
  refresh_validate (some (c ∷ id)) = Sessions.get (c ∷ id)

  -- `handleRequest`, of a `user` that is missing; an error has been raised already.
  abbrev pub handle_request : Option Json → Action Json
  handle_request none = raise nest_unauthorized
  handle_request (some s) = pure s

  -- passport-jwt hands the payload of a token that it accepts to `validate`.
  abbrev pub authenticate :
      List Algorithm → Text → (Option Text → Action (Option Json)) → Option Text → Action Json
  authenticate algs secret validate none = raise nest_unauthorized
  authenticate algs secret validate (some token) = do
    now ← gets (λ w. w.now)
    authenticated (rt.verify algs secret now token)
    where
      authenticated : Option Text → Action Json
      authenticated none = raise nest_unauthorized
      authenticated (some id) = do user ← validate (some id); handle_request user

  -- `JwtAccessGuard`: no `algorithms`, so those that a shared secret allows.
  unfoldable pub access_guard : JwtConfig → Option Text → Action Json
  access_guard config token = authenticate (hs256 ∷ []) config.access_secret access_validate token

  -- `JwtRefreshGuard`: `algorithms: ['RS256']`.
  unfoldable pub refresh_guard : JwtConfig → Option Text → Action Json
  refresh_guard config token =
      authenticate (rs256 ∷ []) config.refresh_secret refresh_validate token
