-- ===== src/Notifications.antt =====
-- The notifications of apps/auth/src/app/processors/notifications, the producer in
-- apps/auth/src/app/broker/producers and the message types of libs/broker/src/types.
pub mod Laws
use trash.Prelude.{List, [], ◌∷◌, ◌++◌, Text, codes}
use trash.Runtime.{Runtime}
use trash.World.{SendMessage, EmailTemplates, with_button, Action}
use trash.Action.{pure, ◌>>=◌, ◌>>◌, try_catch}
use trash.Broker

-- `INotificationSignUpPayload` and the three types that are the same.
pub record Payload : Type 0 where
  pub email : Text
  pub token : Text

pub data Event : Type 0 where
  signed_up password_recovered password_changed email_changed : Event

abbrev pub notification_email : Text
notification_email = codes "notification_email"

-- `EMAIL_MESSAGE`
abbrev pub subject : Event → Text
subject signed_up = codes "Sign up"
subject password_recovered = codes "Password recovery"
subject password_changed = codes "Password change"
subject email_changed = codes "Email change"

abbrev pub body : Event → Text
body signed_up = codes "Hello"
body password_recovered = codes "Password recovery"
body password_changed = codes "Password change"
body email_changed = codes "Email change"

abbrev pub path : Event → Text
path signed_up = codes "/auth?mode=sign-in&confirmCode="
path password_recovered = codes "/auth/recovery-password?passwordRecoveryCode="
path password_changed = codes "/auth?mode=change-password&recoveryCode="
path email_changed = codes "/profile?mode=email-change&emailChangeCode="

unfoldable pub message : Text → Event → Payload → SendMessage
message base_url e p = record {
  to = p.email;
  subject = subject e;
  body = body e;
  url = codes "https://" ++ base_url ++ path e ++ p.token;
  button = codes "Confirm";
  template = with_button;
}

module _ ⦃rt : Runtime⦄ where
  -- `INotificationsUsersOperationsProcessor`: one method for each event.
  abbrev pub Service : Type 0
  Service = Event → Payload → Action (Unit {0})

  -- `NotificationsUsersOperationsBroadcastEmail`, through `NotificationBrokerProducerService`
  unfoldable pub email_service : Text → Service
  email_service base_url e p = Broker.send notification_email (message base_url e p)

  -- `NotificationsUsersOperationsBroadcast`: a service that throws is passed over.
  unfoldable pub broadcast : List Service → Event → Payload → Action (Unit {0})
  broadcast [] e p = pure tt
  broadcast (service ∷ services) e p =
      try_catch (service e p) (λ _. pure tt) >> broadcast services e p
