-- ===== src/Invariant/Requests.antt =====
-- The invariant of Invariant.antt for the actions that a request runs: one rule for each way to
-- build an action, and a lemma for each processor of apps/auth/src/app/processors.
use trash.Prelude.{
  ℕ, ◌≡◌, refl, sym, ap, subst, ◌∙◌, Bool, true, false, Option, none, some, List, Text, arith,
  if◌then◌else◌,
}
use trash.Entity.{UserRow, OperationRow, OperationData, UserUpdate, Select}
use trash.Exceptions.{Exception}
use trash.Runtime.{Runtime}
use trash.World.{put_user, Result, ok, err, World, Action, apply_write}
use trash.Action.{pure, raise, continue, call, ◌>>=◌}
use trash.Database.{absent, find_user, get_uuid}
use trash.Users.{EmailAuthCreateData}
use trash.Cache
use trash.Sessions
use trash.Sessions.{JwtConfig}
use trash.Operations
use trash.Operations.{Options, of_user}
use trash.Operations.Applied.{updated}
use trash.Operations.Effects.{Applied}
use trash.Operations.Changes.{sign_up-Applied, password_recovery-Applied}
use trash.Operations.Refusals.{sign_up-Atomic, password_recovery-Atomic}
use trash.Operations.Outcomes.{create-Ended}
use trash.Operations.Unique.{create-some}
use trash.Operations.SignUp
use trash.Operations.PasswordRecovery
use trash.Notifications.{Service, Event, Payload, broadcast}
use trash.Notifications.Laws.{broadcast_total}
use trash.Auth.Making.{AllQuiet, after_all-committed, after_all-pending, signed_up_row}
use trash.Auth.Stored.{Registered}
use trash.Invariant.{Consistent, Idle}
use trash.Invariant.Tables.{Consistent-applied, Consistent-renewed, Consistent-added}

module _ ⦃rt : Runtime⦄ where
  pub record Keeps {ℓ} {A : Type ℓ} (m : Action A) : Type ℓ where
    pub at : (w : World) → Idle w → Idle (m w).1

  pub Idle-same :
      {w v : World} → v.committed ≡ w.committed → v.pending ≡ w.pending → Idle w → Idle v
  Idle-same c p i = record {
    consistent = subst Consistent (sym c) i.consistent;
    closed = p ∙ i.closed;
  }

  pub Keeps-pure {ℓ} : {A : Type ℓ} (a : A) → Keeps (pure a)
  Keeps-pure a = record { at = λ w i. i }

  pub Keeps-raise {ℓ} : {A : Type ℓ} (x : Exception) → Keeps (raise {A = A} x)
  Keeps-raise x = record { at = λ w i. i }

  Keeps-continue {ℓ κ} :
      {A : Type ℓ} {B : Type κ} (f : A → Action B) (r : Result A × World)
      → Idle r.1
      → ((a : A) → Keeps (f a))
      → Idle (continue r f).1
  Keeps-continue f (ok a, w) i k = (k a).at w i
  Keeps-continue f (err x, w) i k = i

  pub Keeps-bind {ℓ κ} :
      {A : Type ℓ} {B : Type κ} (m : Action A) (f : A → Action B)
      → Keeps m
      → ((a : A) → Keeps (f a))
      → Keeps (m >>= f)
  Keeps-bind m f c k = record { at = λ w i. Keeps-continue f (m w) (c.at w i) k }

  pub Keeps-if {ℓ} :
      {A : Type ℓ} (b : Bool) (m n : Action A) → Keeps m → Keeps n → Keeps (if b then m else n)
  Keeps-if true m n c d = c
  Keeps-if false m n c d = d

  pub find_user-Keeps :
      (test : UserRow → Bool) (columns : Select) → Keeps (find_user absent test columns)
  unfolding find_user call
  find_user-Keeps test columns = record { at = λ w i. Idle-same (ground arith) (ground arith) i }

  pub sessions_create-Keeps : (config : JwtConfig) (id : ℕ) → Keeps (Sessions.create config id)
  unfolding Sessions.create Sessions.set get_uuid Cache.set call
  sessions_create-Keeps config id = record { at = λ w i. Idle-same (ground arith) (ground arith) i }

  pub broadcast-Keeps :
      (services : List Service) (e : Event) (p : Payload)
      → AllQuiet services
      → Keeps (broadcast services e p)
  broadcast-Keeps services e p q = record {
    at = λ w i.
        rw (broadcast_total services e p w)
          (Idle-same (after_all-committed services e p w q) (after_all-pending services e p w q) i);
  }

  -- An action that returns an operation or none, or raises, and changes the database only when it
  -- returns an operation.
  by_result :
      (w : World) (r : Result (Option OperationRow) × World)
      → Idle w
      → (r.1.pending ≡ none)
      → (r.0 ≡ ok none → r.1.committed ≡ w.committed)
      → ((x : Exception) → r.0 ≡ err x → r.1.committed ≡ w.committed)
      → ((a : OperationRow) → r.0 ≡ ok (some a) → Consistent r.1.committed)
      → Idle r.1
  by_result w (ok none, v) i p n f s = record {
    consistent = subst Consistent (sym (n refl)) i.consistent;
    closed = p;
  }
  by_result w (ok (some a), v) i p n f s = record { consistent = s a refl; closed = p }
  by_result w (err x, v) i p n f s = record {
    consistent = subst Consistent (sym (f x refl)) i.consistent;
    closed = p;
  }

  pub operations_create-Keeps :
      (o : Options) (user : ℕ) (content : OperationData)
      → Keeps (Operations.create o user content absent)
  operations_create-Keeps o user content = record {
    at = λ w i.
        let r = Operations.create o user content absent w in
        let ended = create-Ended o user content w in
        by_result w r i (ended.closed i.closed) ended.no_operation ended.failed
          (λ a e. created w a i e);
  }
    where
      created :
          (w : World) (a : OperationRow)
          → Idle w
          → (Operations.create o user content absent w).0 ≡ ok (some a)
          → Consistent (Operations.create o user content absent w).1.committed
      created w a i e =
          let r = Operations.create o user content absent w in
          let (is_new, done, _) = create-some o user content w a r.1 (λ k. (e k, r.1)) in
          subst Consistent (sym done) (
            Consistent-renewed o.kind user a w.committed i.consistent
              (ap (λ (x : OperationRow). x.user_id) is_new)
              (ap (λ (x : OperationRow). x.kind) is_new))

  -- An update of anything but the address.
  Applied-Consistent :
      {o : Options} {token : Text} {d : UserUpdate} {w w' : World} {a : OperationRow}
      → d.email ≡ none
      → Applied o token d w w' a
      → Idle w
      → Consistent w'.committed
  Applied-Consistent {o} {token} {d} {w} {w'} {a} e p i = subst Consistent (sym p.done) (
      Consistent-applied _ (updated d w p.row) p.row w.committed p.stored refl (ground arith)
        i.consistent)

  pub sign_up_apply-Keeps : (token : Text) → Keeps (SignUp.apply token)
  sign_up_apply-Keeps token = record {
    at = λ w i.
        let atomic = sign_up-Atomic token w in
        by_result w (SignUp.apply token w) i (atomic.closed i.closed) atomic.refused atomic.failed
          (λ a e. Applied-Consistent refl (sign_up-Applied token a w e) i);
  }

  pub password_recovery_apply-Keeps :
      (token password : Text) → Keeps (PasswordRecovery.apply token password)
  password_recovery_apply-Keeps token password = record {
    at = λ w i.
        let atomic = password_recovery-Atomic token password w in
        by_result w (PasswordRecovery.apply token password w) i (atomic.closed i.closed)
          atomic.refused atomic.failed
          (λ a e. Applied-Consistent refl (password_recovery-Applied token password a w e) i);
  }

  pub Registered-Idle :
      (d : EmailAuthCreateData) (w w' : World) → Registered d w w' → Idle w → Idle w'
  Registered-Idle d w w' r i = record {
    consistent = subst Consistent (sym r.done) (
        Consistent-renewed _ w.user_seq r.operation (apply_write (put_user row) w.committed)
          (Consistent-added row w.committed (rt.lower_idem d.email) r.is_new i.consistent) r.user_id
          r.kind);
    closed = r.closed;
  }
    where
      row : UserRow
      row = signed_up_row d w
