-- ===== src/Invariant/Reach.antt =====
-- The runs of the service: requests to `AuthController` one after the other, with time passing and
-- any calls failing, from any consistent database.
use trash.Prelude.{
  ℕ, ◌≤◌, ◌≡◌, refl, sym, ◌∙◌, Bool, Option, none, some, List, Text, not, if◌then◌else◌,
}
use trash.Entity.{OperationRow, User, null}
use trash.Exceptions.{
  forbidden_exception, wrong_password, not_verify, not_found_exception, operation_not_found,
}
use trash.Runtime.{Runtime}
use trash.World.{Result, ok, err, World, Action}
use trash.Action.{pure, raise, ◌>>◌}
use trash.Database.{absent, find_user}
use trash.Users
use trash.Users.{EmailAuthCreateData, has_email}
use trash.Sessions
use trash.Sessions.{JwtConfig}
use trash.Operations
use trash.Operations.SignUp
use trash.Operations.PasswordRecovery
use trash.Operations.Target.{by_email}
use trash.Notifications.{Service, signed_up, password_recovered}
use trash.Auth
use trash.Auth.Atomic.{sign_up-failed}
use trash.Auth.Making.{AllQuiet}
use trash.Auth.Stored.{sign_up-Registered}
use trash.Invariant.{Idle}
use trash.Invariant.Requests.{
  Keeps, Keeps-pure, Keeps-raise, Keeps-bind, Keeps-if, Idle-same, find_user-Keeps,
  sessions_create-Keeps, broadcast-Keeps, operations_create-Keeps, sign_up_apply-Keeps,
  password_recovery_apply-Keeps, Registered-Idle,
}
use trash.Routes.{Request, Value, handle, control, respond}

module _ ⦃rt : Runtime⦄ where
  then-Keeps {ℓ} :
      {A : Type ℓ} (m : Action (Unit {0})) (n : Action A) → Keeps m → Keeps n → Keeps (m >> n)
  then-Keeps m n c d = Keeps-bind m (λ _. n) c (λ _. d)

  -- `signUp` opens its transaction itself.
  sign_up-Keeps :
      (services : List Service) (d : EmailAuthCreateData)
      → AllQuiet services
      → Keeps (Auth.sign_up services d)
  sign_up-Keeps services d q = record { at = λ w i. go w (Auth.sign_up services d w) refl i }
    where
      go :
          (w : World) (r : Result (Unit {0}) × World)
          → Auth.sign_up services d w ≡ r
          → Idle w
          → Idle r.1
      go w (ok tt, v) e i = Registered-Idle d w v (sign_up-Registered services q d w v e) i
      go w (err x, v) e i =
          let (same, closed) = sign_up-failed services d x w v i.closed e in
          Idle-same same (closed ∙ sym i.closed) i

  sign_in-Keeps :
      (config : JwtConfig) (email password : Text) → Keeps (Auth.sign_in config email password)
  unfolding Auth.sign_in Users.auth_data
  sign_in-Keeps config email password =
      Keeps-bind (find_user absent _ _) (Auth.admit config password) (find_user-Keeps _ _) admitted
    where
      admitted : (found : Option User) → Keeps (Auth.admit config password found)
      admitted none = Keeps-raise (forbidden_exception wrong_password)
      admitted (some user) =
          Keeps-if (not (Auth.password_compare user password))
            (raise (forbidden_exception wrong_password))
            (if not (Auth.is_true user.email_verified)
              then raise (forbidden_exception not_verify)
              else Sessions.create config user.id)
            (Keeps-raise (forbidden_exception wrong_password))
            (Keeps-if (not (Auth.is_true user.email_verified))
              (raise (forbidden_exception not_verify)) (Sessions.create config user.id)
              (Keeps-raise (forbidden_exception not_verify)) (sessions_create-Keeps config user.id))

  sign_up_create-Keeps : (email : Text) → Keeps (SignUp.create (by_email email) absent)
  unfolding SignUp.create
  sign_up_create-Keeps email =
      Keeps-bind (find_user absent _ _) (SignUp.create_for absent) (find_user-Keeps _ _) made
    where
      made : (found : Option User) → Keeps (SignUp.create_for absent found)
      made none = Keeps-pure none
      made (some u) =
          Keeps-if (SignUp.is_refused (some u)) (pure none)
            (Operations.create SignUp.options u.id null absent) (Keeps-pure none)
            (operations_create-Keeps SignUp.options u.id null)

  password_recovery_create-Keeps :
      (email : Text) → Keeps (PasswordRecovery.create (by_email email) absent)
  unfolding PasswordRecovery.create
  password_recovery_create-Keeps email =
      Keeps-bind (find_user absent _ _) (PasswordRecovery.create_for absent) (find_user-Keeps _ _)
        made
    where
      made : (found : Option User) → Keeps (PasswordRecovery.create_for absent found)
      made none = Keeps-pure none
      made (some u) =
          Keeps-if (not (PasswordRecovery.is_verified u)) (pure none)
            (Operations.create PasswordRecovery.options u.id null absent) (Keeps-pure none)
            (operations_create-Keeps PasswordRecovery.options u.id null)

  module _ (config : JwtConfig) (services : List Service) (q : AllQuiet services) where
    control-Keeps : (request : Request) → Keeps (control config services request)
    unfolding control Auth.refresh Auth.sign_up_confirm Auth.sign_up_resend Auth.password_recovery
        Auth.password_recovery_confirm
    control-Keeps (Request.refresh s) =
        Keeps-bind _ _ (sessions_create-Keeps config s.user_id) (λ t. Keeps-pure _)
    control-Keeps (Request.sign_up d) = then-Keeps _ _ (sign_up-Keeps services d q) (Keeps-pure _)
    control-Keeps (Request.sign_up_confirm token) =
        then-Keeps _ _ (Keeps-bind _ _ (sign_up_apply-Keeps token) confirmed) (Keeps-pure _)
      where
        confirmed : (a : Option OperationRow) → Keeps (Auth.confirmed a)
        confirmed none = Keeps-raise (not_found_exception operation_not_found)
        confirmed (some a) = Keeps-pure tt
    control-Keeps (Request.sign_in email password) =
        Keeps-bind _ _ (sign_in-Keeps config email password) (λ t. Keeps-pure _)
    control-Keeps (Request.sign_up_resend email) =
        then-Keeps _ _ (Keeps-bind _ _ (sign_up_create-Keeps (rt.lower email)) notified)
          (Keeps-pure _)
      where
        notified : (a : Option OperationRow) → Keeps (Auth.notify_sign_up services email a)
        notified none = Keeps-pure tt
        notified (some a) =
            broadcast-Keeps services signed_up (record { email = rt.lower email; token = a.token })
              q
    control-Keeps (Request.password_recovery email) =
        then-Keeps _ _ (Keeps-bind _ _ (password_recovery_create-Keeps email) notified)
          (Keeps-pure _)
      where
        notified : (a : Option OperationRow) → Keeps (Auth.notify_recovery services email a)
        notified none = Keeps-pure tt
        notified (some a) =
            broadcast-Keeps services password_recovered (record { email = email; token = a.token })
              q
    control-Keeps (Request.password_recovery_confirm token password) =
        then-Keeps _ _
          (Keeps-bind _ _ (password_recovery_apply-Keeps token password) (λ a. Keeps-pure tt))
          (Keeps-pure _)

    responded : (r : Result Value × World) → Idle r.1 → Idle (respond r).1
    responded (ok v, w) i = i
    responded (err x, w) i = i

    -- Each request keeps the database consistent and ends with no transaction open.
    pub handle-Idle :
        (request : Request) (w : World) → Idle w → Idle (handle config services request w).1
    unfolding handle
    handle-Idle request w i = responded _ ((control-Keeps request).at w i)

    -- One step of a run: a request, or a moment that passes and after which other calls fail.
    pub data Step : World → World → Type 0 where
      request : (w : World) (r : Request) → Step w (handle config services r w).1
      elapse :
          (w : World) (t : ℕ) (faults : List Bool)
          → w.now ≤ t
          → Step w (record w { now = t; faults = faults })

    pub data Reach (start : World) : World → Type 0 where
      here : Reach start start
      next : {v w : World} → Reach start v → Step v w → Reach start w

    Step-Idle : {v w : World} → Step v w → Idle v → Idle w
    Step-Idle (request v r) i = handle-Idle r v i
    Step-Idle (elapse v t faults h) i = record { consistent = i.consistent; closed = i.closed }

    -- In every run that starts with a consistent database and no open transaction, whatever the
    -- requests and the failing calls, and with notification services that do not touch the
    -- database: no transaction is left open, each user has at most one operation of each kind, no
    -- two users have the same address, and every address is in small letters.
    pub Reach-Idle : {start w : World} → Idle start → Reach start w → Idle w
    Reach-Idle i here = i
    Reach-Idle i (next r s) = Step-Idle s (Reach-Idle i r)
