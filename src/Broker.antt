-- ===== src/Broker.antt =====
-- `BrokerClient` of libs/broker/src/broker.client.ts. A call runs to its end before the next one
-- starts; calls that connect at once stand in Broker/Racing.
pub mod Laws
pub mod Factory
pub mod Racing
use trash.Prelude.{
  Bool, true, false, Option, none, some, List, [], ◌∷◌, ◌++◌, Text, text_eq, if◌then◌else◌,
}
use trash.Exceptions.{call_failed, type_error}
use trash.Runtime.{Runtime, Json}
use trash.World.{SendMessage, Channel, missing, ready, stale, Broker, Result, ok, err, Action}
use trash.Action.{pure, raise, gets, modify, ◌>>=◌, ◌>>◌, call}

abbrev pub holds : Text → List Text → Bool
holds queue [] = false
holds queue (q ∷ qs) = if text_eq q queue then true else holds queue qs

-- `assertQueue` makes the queue if it is not there.
abbrev pub with_queue : Text → List Text → List Text
with_queue queue qs = if holds queue qs then qs else queue ∷ qs

-- The open channel does not outlive its connection.
abbrev after_close : Channel → Channel
after_close ready = stale
after_close missing = missing
after_close stale = stale

module _ ⦃rt : Runtime⦄ where
  abbrev pub set_broker : (Broker → Broker) → Action (Unit {0})
  set_broker f = modify (λ w. record w { broker = f w.broker })

  abbrev connect : Action (Unit {0})
  connect = do
    call
    set_broker (λ b. record b { connected = true })
    call
    set_broker (λ b. record b { channel = ready })

  -- `_init`
  unfoldable pub init : Action (Unit {0})
  unfolding call
  init = do connected ← gets (λ w. w.broker.connected); if connected then pure tt else connect

  -- `this._channel.assertQueue(queue)`: of `undefined` it is a `TypeError`, and of a closed channel
  -- an error of the library.
  abbrev assert_on : Text → Channel → Action (Unit {0})
  assert_on queue missing = raise type_error
  assert_on queue stale = raise call_failed
  assert_on queue ready = do call; set_broker (λ b. record b { queues = with_queue queue b.queues })

  unfoldable pub send : Text → SendMessage → Action (Unit {0})
  unfolding init call
  send queue msg = do
    init
    channel ← gets (λ w. w.broker.channel)
    assert_on queue channel
    set_broker (λ b. record b { sent = b.sent ++ (queue, msg) ∷ [] })

  -- `subscribe`, up to the registration of the consumer.
  unfoldable pub subscribe : Bool → Text → Action (Unit {0})
  unfolding init call
  subscribe deaf queue =
      if deaf
      then pure tt
      else do init; channel ← gets (λ w. w.broker.channel); assert_on queue channel

  unfoldable pub close : Action (Unit {0})
  unfolding call
  close = do connected ← gets (λ w. w.broker.connected); if connected then disconnect else pure tt
    where
      disconnect : Action (Unit {0})
      disconnect = do
        call
        set_broker (λ b. record b { connected = false; channel = after_close b.channel })

  unfoldable pub is_connection : Action Bool
  is_connection = gets (λ w. w.broker.connected)

-- What the consumer of `subscribe` does with a message: whether it logs an error and whether it
-- acknowledges.
pub record Delivery : Type 0 where
  pub logged : Bool
  pub acked : Bool

abbrev handled : Result (Unit {0}) → Bool
handled (ok _) = false
handled (err _) = true

unfoldable pub consume : (Text → Option Json) → (Json → Result (Unit {0})) → Text → Delivery
consume parse handler content = record { logged = logs (parse content); acked = true }
  where
    logs : Option Json → Bool
    logs none = true
    logs (some j) = handled (handler j)
