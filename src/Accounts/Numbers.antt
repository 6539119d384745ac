-- ===== src/Accounts/Numbers.antt =====
-- `signUp` of apps/auth/src/app/routes/v1/auth/auth.service.ts uses up a number of a user.
use trash.Prelude.{suc, ◌≤◌, ◌≡◌, subst, Option, none, some, List, [], ◌∷◌, Text, arith}
use trash.Entity.{User}
use trash.Exceptions.{bad_request_exception, user_already_exists, type_error}
use trash.Runtime.{Runtime}
use trash.World.{SendMessage, Result, ok, err, World, Action}
use trash.Action.{
  pure, raise, catch_with, ◌>>=◌, ◌>>◌, start_transaction, commit_transaction, rollback_transaction,
}
use trash.Action.Along.{Along, Along-pure, Along-raise, Along-bind, Along-then, Along-try}
use trash.Database.{present, insert_user}
use trash.Users
use trash.Users.{EmailAuthCreateData}
use trash.Operations.Effects.{continue-ok}
use trash.Operations.SignUp
use trash.Operations.Target.{by_user}
use trash.Broker
use trash.Notifications.{message, email_service, Service, Event, Payload, broadcast, signed_up}
use trash.Auth
use trash.Accounts.Growth.{
  Grows, grows, find_user-Grows, start-Grows, commit-Grows, rollback-Grows, sign_up_by_user-Grows,
}

module _ ⦃rt : Runtime⦄ where
  -- The services do not set the number of the next user back.
  abbrev pub AllGrow : List Service → Type 0
  AllGrow [] = Unit {0}
  AllGrow (service ∷ services) =
      ((e : Event) (p : Payload) → Along Grows (service e p)) × AllGrow services

  send-Grows : (queue : Text) (msg : SendMessage) → Along Grows (Broker.send queue msg)
  unfolding Broker.send
  send-Grows queue msg = record { at = λ w. ground arith }

  pub email_service-Grows :
      (base_url : Text) (e : Event) (p : Payload) → Along Grows (email_service base_url e p)
  unfolding email_service
  email_service-Grows base_url e p = send-Grows _ (message base_url e p)

  pub broadcast-Grows :
      (services : List Service) (e : Event) (p : Payload)
      → AllGrow services
      → Along Grows (broadcast services e p)
  unfolding broadcast
  broadcast-Grows [] e p g = Along-pure grows tt
  broadcast-Grows (service ∷ services) e p g =
      Along-then grows _ _
        (Along-try grows (service e p) (λ _. pure tt) (g.0 e p) (λ _. Along-pure grows tt))
        (broadcast-Grows services e p g.1)

  required-Grows : {A : Type 0} (o : Option A) → Along Grows (Auth.required o)
  required-Grows none = Along-raise grows type_error
  required-Grows (some a) = Along-pure grows a

  refuse_existing-Grows : (found : Option User) → Along Grows (Auth.refuse_existing found)
  refuse_existing-Grows none = Along-pure grows tt
  refuse_existing-Grows (some u) = Along-raise grows (bad_request_exception user_already_exists)

  create_user-Grows : (d : EmailAuthCreateData) → Along Grows (Users.create d present)
  unfolding Users.create insert_user
  create_user-Grows d = record { at = λ w. ground arith }

  -- A user who has been created has taken a number.
  create_user-taken :
      (d : EmailAuthCreateData) (made : Option User) (w v : World)
      → Users.create d present w ≡ (ok made, v)
      → suc w.user_seq ≤ v.user_seq
  unfolding Users.create insert_user
  create_user-taken d made w v e = ground arith

  module _ (services : List Service) (g : AllGrow services) where
    -- What `signUp` does with the user it has made.
    register : Option User → Action (Unit {0})
    register created = do
      user ← Auth.required created
      made ← SignUp.create (by_user user) present
      operation ← Auth.required made
      commit_transaction
      email ← Auth.required user.email
      broadcast services signed_up (record { email = rt.lower email; token = operation.token })

    register-Grows : (created : Option User) → Along Grows (register created)
    unfolding register
    register-Grows created = Along-bind grows _ _ (required-Grows created) (λ user.
        Along-bind grows _ _ (sign_up_by_user-Grows user) (λ made.
          Along-bind grows _ _ (required-Grows made) (λ operation.
            Along-then grows commit_transaction _ commit-Grows (
              Along-bind grows _ _ (required-Grows user.email) (λ email.
                broadcast-Grows services signed_up
                  (record { email = rt.lower email; token = operation.token }) g)))))

    auth_data-Grows : (email : Text) → Along Grows (Users.auth_data email)
    unfolding Users.auth_data
    auth_data-Grows email = find_user-Grows _ _ _

    body-Grows : (d : EmailAuthCreateData) → Along Grows (Auth.sign_up_body services d)
    unfolding register
    body-Grows d = Along-bind grows (Users.create d present) _ (create_user-Grows d) register-Grows

    pub sign_up-Grows : (d : EmailAuthCreateData) → Along Grows (Auth.sign_up services d)
    unfolding Auth.sign_up Users.auth_data
    sign_up-Grows d = Along-bind grows _ _ (find_user-Grows _ _ _) (λ found.
        Along-then grows (Auth.refuse_existing found) _ (refuse_existing-Grows found) (
          Along-then grows start_transaction _ start-Grows (
            Along-try grows (Auth.sign_up_body services d) _ (body-Grows d)
              (λ x. Along-then grows rollback_transaction _ rollback-Grows (Along-raise grows x)))))

    reaches :
        {A : Type 0} (m : Action A) (w v : World) (r : Result A)
        → Along Grows m
        → m w ≡ (r, v)
        → w.user_seq ≤ v.user_seq
    reaches m w v r c e = subst (λ (x : Result _ × World). w.user_seq ≤ x.1.user_seq) e (c.at w)

    caught-ok :
        (r : Result (Unit {0}) × World) (w' : World)
        → catch_with r (λ x. rollback_transaction >> raise x) ≡ (ok tt, w')
        → r ≡ (ok tt, w')
    unfolding rollback_transaction
    caught-ok (ok tt, u) w' e = e
    caught-ok (err x, u) w' e = absurd (ground arith)

    pub sign_up-taken :
        (d : EmailAuthCreateData) (w v : World)
        → Auth.sign_up services d w ≡ (ok tt, v)
        → suc w.user_seq ≤ v.user_seq
    unfolding Auth.sign_up register
    sign_up-taken d w v e =
        let (found, w1, looks, rest1) = continue-ok (Users.auth_data d.email w) _ tt v e in
        let (_, w2, refuses, rest2) = continue-ok (Auth.refuse_existing found w1) _ tt v rest1 in
        let (_, w3, starts, rest3) = continue-ok (start_transaction w2) _ tt v rest2 in
        let body = caught-ok (Auth.sign_up_body services d w3) v rest3 in
        let (made, w4, makes, rest4) = continue-ok (Users.create d present w3) _ tt v body in
        omega (
          arith,
          reaches (Users.auth_data d.email) w w1 (ok found) (auth_data-Grows d.email) looks,
          reaches (Auth.refuse_existing found) w1 w2 (ok _) (refuse_existing-Grows found) refuses,
          reaches start_transaction w2 w3 (ok _) start-Grows starts,
          create_user-taken d made w3 w4 makes,
          reaches (register made) w4 v (ok tt) (register-Grows made) rest4,
        )
