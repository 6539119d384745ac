-- ===== src/Cache.antt =====
-- `CacheService` of libs/cache/src/cache.service.ts. `close` is not modelled: it ends the process's
-- connection.
pub mod Laws
use trash.Prelude.{ℕ, zero, suc, Option, none, some, [], ◌∷◌, Text}
use trash.Exceptions.{syntax_error}
use trash.Runtime.{Runtime, Json, string}
use trash.World.{World, Action}
use trash.Action.{pure, raise, gets, modify, ◌>>=◌, ◌>>◌, call}

-- The argument `ttl?: number | 'NX'`.
pub data Ttl : Type 0 where
  absent : Ttl
  seconds : ℕ → Ttl
  nx : Ttl

module _ ⦃rt : Runtime⦄ where
  abbrev pub store : Text → Text → Option ℕ → Action (Unit {0})
  store key text ttl = do
    call
    modify (λ w. record w { cache = rt.cache.set w.now key text ttl w.cache })

  -- `this.cache.del(key)`
  unfoldable pub del : Text → Action (Unit {0})
  unfolding call
  del key = do call; modify (λ w. record w { cache = rt.cache.del key w.cache })

  -- `value` has been made a text at the top; in the last branch it is made one again. `!ttl` holds
  -- of 0 too.
  unfoldable pub set : Text → Json → Ttl → Action (Unit {0})
  unfolding call del
  set key value absent = store key (rt.stringify value) rt.cache.default_ttl
  set key value (seconds zero) = store key (rt.stringify value) rt.cache.default_ttl
  set key value (seconds (suc n)) = store key (rt.stringify value) (some (suc n))
  set key value nx = do
    del key
    call
    let text = rt.stringify (string (rt.stringify value))
    modify (λ w. record w { cache = rt.cache.set_nx w.now key text w.cache })

  abbrev pub parsed : Option Json → Action (Option Json)
  parsed none = raise syntax_error
  parsed (some j) = pure (some j)

  -- `if (data)` fails of the empty text too.
  abbrev pub response : Option Text → Action (Option Json)
  response none = pure none
  response (some []) = pure none
  response (some (c ∷ s)) = parsed (rt.parse (c ∷ s))

  unfoldable pub get : Text → Action (Option Json)
  unfolding call
  get key = do call; found ← gets (λ w. rt.cache.get w.now key w.cache); response found

  -- `flushAll`
  unfoldable pub flush_all : Action (Unit {0})
  unfolding call
  flush_all = do call; modify (λ w. record w { cache = rt.cache.reset w.cache })
