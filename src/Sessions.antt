-- ===== src/Sessions.antt =====
-- `SessionService` (apps/auth/src/app/caches/sessions/session.service.ts), `SessionsProcessor`
-- (processors/sessions), `AuthTokenService` (auth/token_service) and the two JWT strategies with
-- their guards (auth/strategies, auth/guards).
pub mod Decimal
pub mod Laws
pub mod Strategies
pub mod Guards
use trash.Prelude.{
  ℕ, Bool, true, false, Option, none, some, List, [], ◌∷◌, ◌++◌, Text, codes, truthy,
}
use trash.Exceptions.{Exception, unauthorized_exception, invalid_session, unauthorized}
use trash.Entity.{User, default_select}
use trash.Runtime.{Runtime, Json, session, string, Session, Algorithm, hs256, rs256}
use trash.World.{Result, ok, err, World, Action}
use trash.Action.{pure, raise, gets, ◌>>=◌, ◌>>◌}
use trash.Database.{Runner, get_uuid, find_user}
use trash.Users.{has_id}
use trash.Cache
use trash.Cache.{Ttl, seconds}
use trash.Sessions.Decimal.{decimal}

-- The settings of config/auth.ts; the lifetimes are in seconds.
pub record JwtConfig : Type 0 where
  pub access_secret : Text
  pub access_lifetime : ℕ
  pub refresh_secret : Text
  pub refresh_lifetime : ℕ

-- `JwtResponse`
pub record JwtResponse : Type 0 where
  pub access_token : Text
  pub refresh_token : Text

-- `id: string | number` of `delete`.
pub data SessionKey : Type 0 where
  by_id : Text → SessionKey
  by_user : ℕ → SessionKey

-- `session:${user_id}:`
abbrev pub key_prefix : ℕ → Text
key_prefix user_id = codes "session:" ++ decimal user_id ++ codes ":"

module _ ⦃rt : Runtime⦄ where
  -- `SessionService.set`
  unfoldable pub set : ℕ → ℕ → Action Text
  unfolding get_uuid
  set user_id session_time = do
    uuid ← get_uuid
    let id = key_prefix user_id ++ uuid
    now ← gets (λ w. w.now)
    Cache.set id
        (session (record {
          id = some id;
          user_id = user_id;
          created_at = some now;
          updated_at = some now;
        }))
        (seconds session_time)
    pure id

  -- `SessionService.get`
  unfoldable pub get : Text → Action (Option Json)
  get id = Cache.get id

  -- `SessionService.update`: the payload alone is stored.
  unfoldable pub update : Text → ℕ → ℕ → Action (Unit {0})
  update id user_id session_time =
      Cache.set id
        (session (record { id = none; user_id = user_id; created_at = none; updated_at = none }))
        (seconds session_time)

  abbrev pub deleted_key : SessionKey → Text
  deleted_key (by_id id) = id
  deleted_key (by_user user_id) = key_prefix user_id ++ codes "*"

  -- `SessionService.delete`
  unfoldable pub delete : SessionKey → Action (Unit {0})
  delete k = Cache.del (deleted_key k)

  -- `AuthTokenService.createTokens`
  unfoldable pub create_tokens : JwtConfig → Text → ℕ → JwtResponse
  create_tokens config id now = record {
    access_token = rt.sign config.access_secret config.access_lifetime id now;
    refresh_token = rt.sign config.refresh_secret config.refresh_lifetime id now;
  }

  -- `SessionsProcessor.create`
  unfoldable pub create : JwtConfig → ℕ → Action JwtResponse
  create config user_id = do
    id ← set user_id config.refresh_lifetime
    now ← gets (λ w. w.now)
    pure (create_tokens config id now)

  -- `SessionsProcessor.dropAll`
  unfoldable pub drop_all : ℕ → Action (Unit {0})
  drop_all user_id = delete (by_user user_id)
