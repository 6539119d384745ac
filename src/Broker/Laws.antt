-- ===== src/Broker/Laws.antt =====
-- What becomes of the messages that are handed to `BrokerClient`.
use trash.Prelude.{
  ◌≡◌, refl, sym, ◌∙◌, ◌⊎◌, inl, inr, Bool, true, false, List, [], ◌∷◌, ◌++◌, Text, arith, map,
  Bool-cases,
}
use mathlib.Core.List.{append_assoc, append-nil}
use trash.Exceptions.{type_error}
use trash.Runtime.{Runtime}
use trash.World.{SendMessage, Broker, missing, ready, ok, err, World, Action}
use trash.Action.{pure, call, ◌>>◌}
use trash.Broker.{send, close, with_queue, after_close}

-- There is no connection, or one with its channel.
abbrev pub Usable : Broker → Type 0
Usable b = (b.connected ≡ false) ⊎ ((b.connected ≡ true) × (b.channel ≡ ready))

-- A message has been put to the end, and the client is connected.
abbrev pub delivered : Text → SendMessage → Broker → Broker
delivered queue msg b = record {
  connected = true;
  channel = ready;
  queues = with_queue queue b.queues;
  sent = b.sent ++ (queue, msg) ∷ [];
}

module _ ⦃rt : Runtime⦄ where
  -- The calls of `send`, one message after the other.
  unfoldable pub send_all : Text → List SendMessage → Action (Unit {0})
  send_all queue [] = pure tt
  send_all queue (msg ∷ msgs) = send queue msg >> send_all queue msgs

  send-delivered :
      (queue : Text) (msg : SendMessage) (w : World)
      → w.faults ≡ []
      → Usable w.broker
      → send queue msg w ≡ (ok tt, record w { broker = delivered queue msg w.broker })
  unfolding send call
  send-delivered queue msg w h (inl closed) = rw (closed, h)
  send-delivered queue msg w h (inr (opened, channel)) = rw (opened, channel, h) (ground arith)

  -- When no call fails and the client is not left with a connection that has no open channel, sends
  -- all return, and the messages are in their queue in the order of the sends, after those that were
  -- there.
  pub send_all-sent :
      (queue : Text) (msgs : List SendMessage) (w : World)
      → w.faults ≡ []
      → Usable w.broker
      → ((send_all queue msgs w).0 ≡ ok tt)
        × ((send_all queue msgs w).1.broker.sent ≡ w.broker.sent ++ map (λ msg. (queue, msg)) msgs)
  unfolding send_all
  send_all-sent queue [] w h u = (refl, sym (append-nil w.broker.sent))
  send_all-sent queue (msg ∷ msgs) w h u =
      let (returns, sent) =
        send_all-sent queue msgs (record w { broker = delivered queue msg w.broker }) h
          (inr (refl, refl)) in
      rw (send-delivered queue msg w h u) (
        returns,
        sent ∙ append_assoc w.broker.sent ((queue, msg) ∷ []) (map (λ m. (queue, m)) msgs),
      )

  abbrev disconnected : World → World
  disconnected w = record w {
    broker = record w.broker { connected = false; channel = after_close w.broker.channel };
  }

  close-opened :
      (w : World) → w.faults ≡ [] → w.broker.connected ≡ true → close w ≡ (ok tt, disconnected w)
  unfolding close call
  close-opened w h opened = ground (arith, h, opened)

  close-closed : (w : World) → w.broker.connected ≡ false → close w ≡ (ok tt, w)
  unfolding close
  close-closed w closed = ground (arith, closed)

  -- When no call fails, whatever state the client is in, a send after a close returns and adds its
  -- message at the end.
  pub close-send :
      (queue : Text) (msg : SendMessage) (w : World)
      → w.faults ≡ []
      → ((send queue msg (close w).1).0 ≡ ok tt)
        × ((send queue msg (close w).1).1.broker.sent ≡ w.broker.sent ++ (queue, msg) ∷ [])
  close-send queue msg w h = elim (Bool-cases w.broker.connected) [
    | inl opened ↦
        let sends = send-delivered queue msg (disconnected w) h (inl refl) in
        rw (close-opened w h opened, sends) (refl, refl)
    | inr closed ↦
        let sends = send-delivered queue msg w h (inl closed) in
        rw (close-closed w closed, sends) (refl, refl)
  ]

  -- If the client had neither a connection nor a channel, and in a send it connected and could not
  -- create the channel, then every later send that comes before a close raises a `TypeError` and
  -- sends nothing, even where no call fails any more.
  pub send_stuck :
      (queue later : Text) (msg other : SendMessage) (rest faults : List Bool) (w : World)
      → w.faults ≡ false ∷ true ∷ rest
      → w.broker.connected ≡ false
      → w.broker.channel ≡ missing
      → send later other (record (send queue msg w).1 { faults = faults })
        ≡ (err type_error, record (send queue msg w).1 { faults = faults })
  unfolding send call
  send_stuck queue later msg other rest faults w h closed none_ = rw (h, closed, none_) refl
