-- ===== src/Notifications/Laws.antt =====
-- How a notification (apps/auth/src/app/processors/notifications) bears on the request that sends
-- it and on the database.
use trash.Prelude.{◌≡◌, refl, List, [], ◌∷◌, Text, arith}
use trash.Runtime.{Runtime}
use trash.World.{SendMessage, Result, ok, err, World}
use trash.Action.{continue, catch_with, pure}
use trash.Broker
use trash.Notifications.{Event, Payload, Service, broadcast, email_service, message}

module _ ⦃rt : Runtime⦄ where
  -- The service leaves the database as it is: what is committed, and the open transaction.
  pub record Quiet (service : Service) : Type 0 where
    pub committed :
        (e : Event) (p : Payload) (w : World) → (service e p w).1.committed ≡ w.committed
    pub pending : (e : Event) (p : Payload) (w : World) → (service e p w).1.pending ≡ w.pending

  -- The services that are reached are all of them: each runs in the state that the ones before it
  -- left, failed or not.
  abbrev pub after_all : List Service → Event → Payload → World → World
  after_all [] e p w = w
  after_all (service ∷ services) e p w = after_all services e p (service e p w).1

  recovered :
      (services : List Service) (e : Event) (p : Payload) (r : Result (Unit {0}) × World)
      → ((w : World) → broadcast services e p w ≡ (ok tt, after_all services e p w))
      → continue (catch_with r (λ _. pure tt)) (λ _. broadcast services e p)
        ≡ (ok tt, after_all services e p r.1)
  recovered services e p (ok _, w) ih = ih w
  recovered services e p (err x, w) ih = ih w

  -- Whatever the services do, the broadcast returns, and every service has been called.
  pub broadcast_total :
      (services : List Service) (e : Event) (p : Payload) (w : World)
      → broadcast services e p w ≡ (ok tt, after_all services e p w)
  unfolding broadcast
  broadcast_total [] e p w = refl
  broadcast_total (service ∷ services) e p w =
      recovered services e p (service e p w) (broadcast_total services e p)

  send-committed :
      (queue : Text) (msg : SendMessage) (w : World)
      → (Broker.send queue msg w).1.committed ≡ w.committed
  unfolding Broker.send
  send-committed queue msg w = ground arith

  send-pending :
      (queue : Text) (msg : SendMessage) (w : World)
      → (Broker.send queue msg w).1.pending ≡ w.pending
  unfolding Broker.send
  send-pending queue msg w = ground arith

  -- Whatever calls fail, the email service touches neither what is committed nor the open
  -- transaction.
  pub email_service-Quiet : (base_url : Text) → Quiet (email_service base_url)
  unfolding email_service
  email_service-Quiet base_url = record {
    committed = λ e p w. send-committed _ (message base_url e p) w;
    pending = λ e p w. send-pending _ (message base_url e p) w;
  }
