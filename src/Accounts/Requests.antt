-- ===== src/Accounts/Requests.antt =====
-- The requests to AuthController that are made of sessions, look-ups, operations and messages only:
-- a relation that all of these stay along, the requests stay along too.
use trash.Prelude.{ℕ, Option, none, some, List, Text}
use trash.Entity.{OperationRow}
use trash.Exceptions.{not_found_exception, operation_not_found}
use trash.Runtime.{Runtime}
use trash.World.{World}
use trash.Action.Along.{Preorder, Along, Along-pure, Along-raise, Along-bind, Along-then}
use trash.Database.{absent}
use trash.Sessions
use trash.Sessions.{JwtConfig}
use trash.Operations.Target.{by_email}
use trash.Operations.SignUp
use trash.Operations.PasswordRecovery
use trash.Notifications.{Service, Event, Payload, broadcast, signed_up, password_recovered}
use trash.Auth
use trash.Auth.Making.{AllQuiet}
use trash.Routes.{Request, control}
use trash.Accounts.Untouched.{
  SameUsers, users, sessions_create-SameUsers, broadcast-SameUsers, sign_in-SameUsers,
  sign_up_create-SameUsers, password_recovery_create-SameUsers,
}
use trash.Accounts.Growth.{
  Grows, grows, sessions_create-Grows, sign_in-Grows, sign_up_by_email-Grows,
  recovery_by_email-Grows, sign_up_apply-Grows, recovery_apply-Grows,
}
use trash.Accounts.Numbers.{AllGrow, broadcast-Grows, sign_up-Grows}

module _ ⦃rt : Runtime⦄ where
  -- Neither a sign-up nor a confirmation.
  abbrev pub IsLight : Request → Type 0
  IsLight (Request.refresh s) = Unit
  IsLight (Request.sign_in email password) = Unit
  IsLight (Request.sign_up_resend email) = Unit
  IsLight (Request.password_recovery email) = Unit
  IsLight _ = ⊥

  module _ (config : JwtConfig) (services : List Service) where
    record Parts (R : World → World → Type 0) : Type 0 where
      sessions : (id : ℕ) → Along R (Sessions.create config id)
      sign_ins : (email password : Text) → Along R (Auth.sign_in config email password)
      sign_ups : (email : Text) → Along R (SignUp.create (by_email email) absent)
      recoveries : (email : Text) → Along R (PasswordRecovery.create (by_email email) absent)
      messages : (e : Event) (p : Payload) → Along R (broadcast services e p)

    control-Along :
        {R : World → World → Type 0} (o : Preorder R)
        → Parts R
        → (r : Request) → IsLight r
        → Along R (control config services r)
    unfolding control Auth.refresh Auth.sign_up_resend Auth.password_recovery
    control-Along o p (Request.refresh s) h =
        Along-bind o _ _ (p.sessions s.user_id) (λ t. Along-pure o _)
    control-Along o p (Request.sign_in email password) h =
        Along-bind o _ _ (p.sign_ins email password) (λ t. Along-pure o _)
    control-Along {R = R} o p (Request.sign_up_resend email) h =
        Along-then o _ _ (Along-bind o _ _ (p.sign_ups (rt.lower email)) notified) (Along-pure o _)
      where
        notified : (a : Option OperationRow) → Along R (Auth.notify_sign_up services email a)
        notified none = Along-pure o tt
        notified (some a) =
            p.messages signed_up (record { email = rt.lower email; token = a.token })
    control-Along {R = R} o p (Request.password_recovery email) h =
        Along-then o _ _ (Along-bind o _ _ (p.recoveries email) notified) (Along-pure o _)
      where
        notified : (a : Option OperationRow) → Along R (Auth.notify_recovery services email a)
        notified none = Along-pure o tt
        notified (some a) =
            p.messages password_recovered (record { email = email; token = a.token })
    control-Along o p (Request.sign_up d) h = elim h [ ]
    control-Along o p (Request.sign_up_confirm token) h = elim h [ ]
    control-Along o p (Request.password_recovery_confirm token password) h = elim h [ ]

    pub control-SameUsers :
        AllQuiet services → (r : Request) → IsLight r → Along SameUsers (control config services r)
    control-SameUsers quiet = control-Along users (record {
      sessions = sessions_create-SameUsers config;
      sign_ins = sign_in-SameUsers config;
      sign_ups = sign_up_create-SameUsers;
      recoveries = password_recovery_create-SameUsers;
      messages = λ e p. broadcast-SameUsers services e p quiet;
    })

    light-Grows :
        AllGrow services → (r : Request) → IsLight r → Along Grows (control config services r)
    light-Grows g = control-Along grows (record {
      sessions = sessions_create-Grows config;
      sign_ins = sign_in-Grows config;
      sign_ups = sign_up_by_email-Grows;
      recoveries = recovery_by_email-Grows;
      messages = λ e p. broadcast-Grows services e p g;
    })

    confirmed-Grows : (a : Option OperationRow) → Along Grows (Auth.confirmed a)
    confirmed-Grows none = Along-raise grows (not_found_exception operation_not_found)
    confirmed-Grows (some a) = Along-pure grows tt

    pub control-Grows : AllGrow services → (r : Request) → Along Grows (control config services r)
    unfolding control Auth.sign_up_confirm Auth.password_recovery_confirm
    control-Grows g (Request.sign_up d) =
        Along-then grows _ _ (sign_up-Grows services g d) (Along-pure grows _)
    control-Grows g (Request.sign_up_confirm token) =
        Along-then grows _ _ (Along-bind grows _ _ (sign_up_apply-Grows token) confirmed-Grows)
          (Along-pure grows _)
    control-Grows g (Request.password_recovery_confirm token password) =
        Along-then grows _ _
          (Along-bind grows _ _ (recovery_apply-Grows token password) (λ a. Along-pure grows tt))
          (Along-pure grows _)
    control-Grows g (Request.refresh s) = light-Grows g (Request.refresh s) tt
    control-Grows g (Request.sign_in email password) =
        light-Grows g (Request.sign_in email password) tt
    control-Grows g (Request.sign_up_resend email) = light-Grows g (Request.sign_up_resend email) tt
    control-Grows g (Request.password_recovery email) =
        light-Grows g (Request.password_recovery email) tt
