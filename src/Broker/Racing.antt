-- ===== src/Broker/Racing.antt =====
-- `_init` of libs/broker/src/broker.client.ts by several callers at once. A caller gives way at each
-- `await`, so that the parts of one call may stand between those of another. No call fails here.
pub mod Laws
use trash.Prelude.{ℕ, zero, suc, ◌+◌, Bool, true, false, Option, none, some, List, [], ◌∷◌}

-- How far a caller has come: it has not called yet, waits for `connect`, waits for `createChannel` of
-- a connection, or has returned.
pub data Phase : Type 0 where
  waiting connecting returned : Phase
  opening : ℕ → Phase

-- The fields of the client, and how many connections have been made.
pub record Client : Type 0 where
  pub connection : Option ℕ
  pub channel : Option ℕ
  pub made : ℕ

-- `if (this._connection) { return; }`
abbrev pub after_check : Option ℕ → Phase
after_check none = connecting
after_check (some n) = returned

-- A caller up to its next `await`.
unfoldable pub advance : Client → Phase → Client × Phase
advance c waiting = (c, after_check c.connection)
advance c connecting = (record c { connection = some c.made; made = c.made + 1 }, opening c.made)
advance c (opening n) = (record c { channel = some n }, returned)
advance c returned = (c, returned)

-- The next part of the caller with that number, if there is one.
unfoldable pub step : ℕ → Client → List Phase → Client × List Phase
step i c [] = (c, [])
step zero c (p ∷ ps) = let next = advance c p in (next.0, next.1 ∷ ps)
step (suc i) c (p ∷ ps) = let rest = step i c ps in (rest.0, p ∷ rest.1)

-- The order in which the callers get on.
unfoldable pub run : List ℕ → Client → List Phase → Client × List Phase
run [] c ps = (c, ps)
run (i ∷ schedule) c ps = let next = step i c ps in run schedule next.0 next.1

-- A client that nobody has called.
abbrev pub new_client : Client
new_client = record { connection = none; channel = none; made = 0 }

abbrev pub callers : ℕ → List Phase
callers zero = []
callers (suc n) = waiting ∷ callers n
