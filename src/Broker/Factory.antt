-- ===== src/Broker/Factory.antt =====
-- `BrokerFactoryModule` of libs/broker/src/broker.factory.module.ts: what it does with the broker's
-- client when the application starts and when it ends. What Nest's container holds is a parameter:
-- the modules with their controllers, and of each method the queue that `@Subscribe` names.
pub mod Laws
use trash.Prelude.{Bool, Option, none, some, List, [], ◌∷◌, Text}
use trash.Runtime.{Runtime}
use trash.World.{Action}
use trash.Action.{pure, ◌>>=◌, ◌>>◌}
use trash.Broker.{subscribe, close}

-- `QUEUE_METADATA` of each method.
pub record Controller : Type 0 where
  pub methods : List (Option Text)

pub record Module : Type 0 where
  pub controllers : List Controller

module _ ⦃rt : Runtime⦄ where
  -- `if (!metadata) { continue; }`
  abbrev pub subscribe_method : Bool → Option Text → Action (Unit {0})
  subscribe_method deaf none = pure tt
  subscribe_method deaf (some []) = pure tt
  subscribe_method deaf (some (c ∷ queue)) = subscribe deaf (c ∷ queue)

  unfoldable pub subscribe_methods : Bool → List (Option Text) → Action (Unit {0})
  subscribe_methods deaf [] = pure tt
  subscribe_methods deaf (metadata ∷ methods) =
      subscribe_method deaf metadata >> subscribe_methods deaf methods

  unfoldable pub subscribe_controllers : Bool → List Controller → Action (Unit {0})
  subscribe_controllers deaf [] = pure tt
  subscribe_controllers deaf (controller ∷ controllers) =
      subscribe_methods deaf controller.methods >> subscribe_controllers deaf controllers

  unfoldable pub on_module_init : Bool → List Module → Action (Unit {0})
  on_module_init deaf [] = pure tt
  on_module_init deaf (m ∷ modules) =
      subscribe_controllers deaf m.controllers >> on_module_init deaf modules

  unfoldable pub on_module_destroy : Action (Unit {0})
  on_module_destroy = close
