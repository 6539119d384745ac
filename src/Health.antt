-- ===== src/Health.antt =====
-- The health checks of libs/health_checker/src. The checks of the database, the memory and the disk
-- are terminus's, and so is the report that is made of the results; the client of the cache says
-- whether it is ready.
pub mod Laws
use trash.Prelude.{ℕ, ◌*◌, Bool, true, false, List, [], ◌∷◌, Text, codes}
use trash.Runtime.{Runtime}
use trash.World.{Action}
use trash.Action.{pure, ◌>>=◌}
use trash.Broker.{is_connection}

-- `getStatus(key, isReady)`
pub record Status : Type 0 where
  pub key : Text
  pub is_ready : Bool

-- What a `pingCheck` ends in: a status, or a `HealthCheckError` with a message and a status.
pub data Ping : Type 0 where
  healthy : Status → Ping
  failed : Text → Status → Ping

abbrev ping_of : Text → Text → Bool → Ping
ping_of message key true = healthy (record { key = key; is_ready = true })
ping_of message key false = failed message (record { key = key; is_ready = false })

-- `RedisHealthIndicator.pingCheck`, of `CacheService.isReady`.
unfoldable pub redis_ping : Bool → Text → Ping
redis_ping is_ready key = ping_of (codes "redis failed") key is_ready

-- The checks, in the order of `check`, with the arguments that each is given.
pub data Check : Type 0 where
  type_orm : Text → Check
  heap : Text → ℕ → Check
  rss : Text → ℕ → Check
  disk : Text → ℕ → Text → Check
  redis : Text → Check
  rabbit : Text → Check

-- Half of the disk is the threshold, in percent here.
unfoldable pub checks : List Check
checks =
    type_orm (codes "database")
    ∷ heap (codes "memory_heap") (300 * 1024 * 1024)
    ∷ rss (codes "memory_RSS") (300 * 1024 * 1024)
    ∷ disk (codes "disk") 50 (codes "/")
    ∷ redis (codes "redis")
    ∷ rabbit (codes "rabbit")
    ∷ []

module _ ⦃rt : Runtime⦄ where
  -- `RabbitHealthIndicator.pingCheck`
  unfoldable pub rabbit_ping : Text → Action Ping
  rabbit_ping key = do
    connected ← is_connection
    pure (ping_of (codes "rabbit failed") key connected)

  -- The results of `check`, where those of terminus are given.
  unfoldable pub run_checks : (Check → Ping) → Bool → List Check → Action (List Ping)
  run_checks terminus is_ready [] = pure []
  run_checks terminus is_ready (redis key ∷ rest) = do
    pings ← run_checks terminus is_ready rest
    pure (redis_ping is_ready key ∷ pings)
  run_checks terminus is_ready (rabbit key ∷ rest) = do
    ping ← rabbit_ping key
    pings ← run_checks terminus is_ready rest
    pure (ping ∷ pings)
  run_checks terminus is_ready (c ∷ rest) = do
    pings ← run_checks terminus is_ready rest
    pure (terminus c ∷ pings)

  unfoldable pub check : (Check → Ping) → Bool → Action (List Ping)
  check terminus is_ready = run_checks terminus is_ready checks
