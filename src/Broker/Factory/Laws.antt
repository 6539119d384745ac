-- ===== src/Broker/Factory/Laws.antt =====
-- The broker's client after the start of the application.
use trash.Prelude.{
  ◌≡◌, refl, inl, inr, Bool, true, false, Option, none, some, List, [], ◌∷◌, ◌++◌, Text, text_eq,
  text_eq_refl, text_eq_iff, arith, Bool-cases,
}
use trash.Runtime.{Runtime}
use trash.World.{Broker, ready, ok, World, Action}
use trash.Action.{pure, call, ◌>>◌}
use trash.Broker.{subscribe, with_queue, holds}
use trash.Broker.Laws.{Usable}
use trash.Broker.Factory.{
  Controller, Module, subscribe_method, subscribe_methods, subscribe_controllers, on_module_init,
}

-- The queues that the methods name, in order.
abbrev pub queue_of : Option Text → List Text
queue_of none = []
queue_of (some []) = []
queue_of (some (c ∷ queue)) = (c ∷ queue) ∷ []

abbrev pub method_queues : List (Option Text) → List Text
method_queues [] = []
method_queues (metadata ∷ methods) = queue_of metadata ++ method_queues methods

abbrev pub controller_queues : List Controller → List Text
controller_queues [] = []
controller_queues (c ∷ controllers) = method_queues c.methods ++ controller_queues controllers

abbrev pub queues_of : List Module → List Text
queues_of [] = []
queues_of (m ∷ modules) = controller_queues m.controllers ++ queues_of modules

-- The client is connected, and the queue is there.
abbrev pub asserted : Text → Broker → Broker
asserted queue b = record b {
  connected = true;
  channel = ready;
  queues = with_queue queue b.queues;
}

abbrev pub all_asserted : List Text → Broker → Broker
all_asserted [] b = b
all_asserted (queue ∷ queues) b = all_asserted queues (asserted queue b)

all_asserted-append :
    (xs ys : List Text) (b : Broker)
    → all_asserted (xs ++ ys) b ≡ all_asserted ys (all_asserted xs b)
all_asserted-append [] ys b = refl
all_asserted-append (x ∷ xs) ys b = all_asserted-append xs ys (asserted x b)

all_asserted-Usable : (xs : List Text) (b : Broker) → Usable b → Usable (all_asserted xs b)
all_asserted-Usable [] b u = u
all_asserted-Usable (x ∷ xs) b u = all_asserted-Usable xs (asserted x b) (inr (refl, refl))

module _ ⦃rt : Runtime⦄ where
  -- The action asserts those queues and does nothing else.
  pub record Asserts (queues : List Text) (m : Action (Unit {0})) : Type 0 where
    pub at :
        (w : World)
        → w.faults ≡ []
        → Usable w.broker
        → m w ≡ (ok tt, record w { broker = all_asserted queues w.broker })

  subscribe-Asserts : (queue : Text) → Asserts (queue ∷ []) (subscribe false queue)
  unfolding subscribe call
  subscribe-Asserts queue = record { at = go }
    where
      go :
          (w : World)
          → w.faults ≡ []
          → Usable w.broker
          → subscribe false queue w
            ≡ (ok tt, record w { broker = all_asserted (queue ∷ []) w.broker })
      go w h (inl closed) = rw (closed, h)
      go w h (inr (opened, channel)) = rw (opened, channel, h) (ground arith)

  then-Asserts :
      (xs ys : List Text) (m n : Action (Unit {0}))
      → Asserts xs m
      → Asserts ys n
      → Asserts (xs ++ ys) (m >> n)
  then-Asserts xs ys m n p q = record {
    at = λ w h u.
        rw (p.at w h u, all_asserted-append xs ys w.broker)
          (q.at (record w { broker = all_asserted xs w.broker }) h
            (all_asserted-Usable xs w.broker u));
  }

  pure-Asserts : Asserts [] (pure tt)
  pure-Asserts = record { at = λ w h u. refl }

  method-Asserts : (m : Option Text) → Asserts (queue_of m) (subscribe_method false m)
  method-Asserts none = pure-Asserts
  method-Asserts (some []) = pure-Asserts
  method-Asserts (some (c ∷ queue)) = subscribe-Asserts (c ∷ queue)

  methods-Asserts :
      (ms : List (Option Text)) → Asserts (method_queues ms) (subscribe_methods false ms)
  unfolding subscribe_methods
  methods-Asserts [] = pure-Asserts
  methods-Asserts (m ∷ ms) = then-Asserts _ _ _ _ (method-Asserts m) (methods-Asserts ms)

  controllers-Asserts :
      (cs : List Controller) → Asserts (controller_queues cs) (subscribe_controllers false cs)
  unfolding subscribe_controllers
  controllers-Asserts [] = pure-Asserts
  controllers-Asserts (c ∷ cs) =
      then-Asserts _ _ _ _ (methods-Asserts c.methods) (controllers-Asserts cs)

  pub modules-Asserts : (ms : List Module) → Asserts (queues_of ms) (on_module_init false ms)
  unfolding on_module_init
  modules-Asserts [] = pure-Asserts
  modules-Asserts (m ∷ ms) =
      then-Asserts _ _ _ _ (controllers-Asserts m.controllers) (modules-Asserts ms)

holds-with_queue :
    (q x : Text) (qs : List Text) → holds q qs ≡ true → holds q (with_queue x qs) ≡ true
holds-with_queue q x qs h = ground (arith, h)

holds-own : (q : Text) (qs : List Text) → holds q (with_queue q qs) ≡ true
holds-own q qs = ground (arith, text_eq_refl q)

kept :
    (q : Text) (xs : List Text) (b : Broker)
    → holds q b.queues ≡ true
    → holds q (all_asserted xs b).queues ≡ true
kept q [] b h = h
kept q (x ∷ xs) b h = kept q xs (asserted x b) (holds-with_queue q x b.queues h)

pub holds-all_asserted :
    (q : Text) (xs : List Text) (b : Broker)
    → holds q xs ≡ true
    → holds q (all_asserted xs b).queues ≡ true
holds-all_asserted q [] b h = absurd (cc h)
holds-all_asserted q (x ∷ xs) b h = elim (Bool-cases (text_eq x q)) [
  | inl same ↦
      let is = (text_eq_iff x q).0 same in kept q xs (asserted x b) (rw is (holds-own q b.queues))
  | inr other ↦ holds-all_asserted q xs (asserted x b) (rw other at h)
]

-- Whether there is a queue.
abbrev pub some_queue : List Text → Bool
some_queue [] = false
some_queue (x ∷ xs) = true

connected-after :
    (xs : List Text) (b : Broker) → b.connected ≡ true → (all_asserted xs b).connected ≡ true
connected-after [] b h = h
connected-after (x ∷ xs) b h = connected-after xs (asserted x b) refl

pub all_asserted-connected :
    (xs : List Text) (b : Broker)
    → b.connected ≡ false
    → (all_asserted xs b).connected ≡ some_queue xs
all_asserted-connected [] b h = h
all_asserted-connected (x ∷ xs) b h = connected-after xs (asserted x b) refl
