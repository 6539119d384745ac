-- ===== src/Accounts/Refines.antt =====
-- Each request to apps/auth/src/app/routes/v1/auth as a change of Accounts.antt.
use mathlib.Core.Option
use trash.Prelude.{ℕ, ◌≡◌, refl, sym, ap, subst, ◌∙◌, Option, none, some, List, [], ◌∷◌, Text}
use trash.Entity.{sign_up, UserRow, OperationRow, UserUpdate, or_else}
use trash.Runtime.{Runtime}
use trash.World.{apply_write, put_user, Result, ok, err, Db, World, Action}
use trash.Action.{pure, continue}
use trash.Action.Along.{Along}
use trash.Users.{EmailAuthCreateData, has_email}
use trash.Sessions.{JwtConfig}
use trash.Operations.{Options, of_user}
use trash.Operations.SignUp
use trash.Operations.PasswordRecovery
use trash.Operations.Applied.{encrypted, updated}
use trash.Operations.Effects.{Applied}
use trash.Operations.Changes.{sign_up-Applied, password_recovery-Applied}
use trash.Operations.Refusals.{Atomic, sign_up-Atomic, password_recovery-Atomic}
use trash.Notifications.{Service}
use trash.Auth
use trash.Auth.Atomic.{sign_up-failed}
use trash.Auth.Making.{AllQuiet, signed_up_row}
use trash.Auth.Stored.{sign_up-Registered}
use trash.Auth.Confirmable.{email-finds}
use trash.Routes.{Request, Value, handle, control, respond}
use trash.Accounts.{Permitted, view, account, set_at}
use trash.Accounts.View.{view-put}
use trash.Invariant.{DistinctUsers, Idle}
use trash.Invariant.Tables.{users_replaced, users_same, DistinctUsers-replaced, DistinctUsers-added}
use trash.Accounts.Untouched.{SameUsers}
use trash.Accounts.Requests.{IsLight, control-SameUsers}

module _ ⦃rt : Runtime⦄ where
  or_else-encrypted :
      (n : ℕ) (p : Text) (old : Option Text)
      → or_else (encrypted n (some p)) old ≡ encrypted n (some p)
  or_else-encrypted n [] old = refl
  or_else-encrypted n (c ∷ p) old = refl

  -- The row of an operation that was applied has changed, and no other.
  view-Applied :
      {o : Options} {token : Text} {d : UserUpdate} {w w' : World} {a : OperationRow}
      → d.email ≡ none
      → (p : Applied o token d w w' a) → DistinctUsers w.committed.users
      → (view w.committed p.row.email ≡ some (account p.row))
        × (view w'.committed ≡ set_at p.row.email (account (updated d w p.row)) (view w.committed))
  view-Applied {o} {token} {d} {w} {w'} {a} keeps p distinct =
      let t = w.committed.users in
      let next = updated d w p.row in
      let same : next.email ≡ p.row.email = rw keeps refl in
      (
        ap (Option.map account) (email-finds p.row t p.stored distinct),
        subst (λ e. view w'.committed ≡ set_at e (account next) (view w.committed)) same
            (view-put next t
              (λ r stored own.
                ap (λ (x : UserRow). x.email)
                  (same_row r p.row (sym stored ∙ ap (λ k. rt.users.get k t) own ∙ p.stored))
                ∙ sym same)
              (DistinctUsers-replaced next p.row t p.stored refl same distinct) w.committed
              w'.committed refl
              (ap (λ (db : Db). db.users) p.done ∙ users_replaced _ next w.committed)),
      )
    where
      same_row : (r s : UserRow) → some r ≡ some s → r ≡ s
      same_row r s e = cc

  view-same : (v w : World) → SameUsers w v → view v.committed ≡ view w.committed
  view-same v w h = ap (λ t x. Option.map account (rt.users.find (has_email x) t)) h

  unchanged :
      {A : Type 0} {m : Action A} (r : Request) (w : World)
      → Along SameUsers m
      → Permitted r (view w.committed) (view (m w).1.committed)
  unchanged {m = m} r w c = Permitted.same r (view-same (m w).1 w (c.at w))

  -- An `apply` that changes the accounts only when it returns an operation.
  by_outcome :
      (request : Request) (w : World) (r : Result (Option OperationRow) × World)
      → Atomic w r
      → ((a : OperationRow)
          → r.0 ≡ ok (some a)
          → Permitted request (view w.committed) (view r.1.committed))
      → Permitted request (view w.committed) (view r.1.committed)
  by_outcome request w (ok none, v) atomic done =
      Permitted.same request (ap view (atomic.refused refl))
  by_outcome request w (ok (some a), v) atomic done = done a refl
  by_outcome request w (err x, v) atomic done =
      Permitted.same request (ap view (atomic.failed x refl))

  pub confirmed-last :
      (r : Result (Option OperationRow) × World)
      → (continue (continue r Auth.confirmed) (λ _. pure Value.undefined)).1 ≡ r.1
  confirmed-last (ok none, v) = refl
  confirmed-last (ok (some a), v) = refl
  confirmed-last (err x, v) = refl

  pub set-last :
      (r : Result (Option OperationRow) × World)
      → (continue (continue r (λ _. pure {A = Unit {0}} tt)) (λ _. pure Value.undefined)).1 ≡ r.1
  set-last (ok a, v) = refl
  set-last (err x, v) = refl

  pub finished-last :
      (r : Result (Unit {0}) × World) → (continue r (λ _. pure Value.undefined)).1 ≡ r.1
  finished-last (ok a, v) = refl
  finished-last (err x, v) = refl

  verified_permitted :
      (token : Text) (a : OperationRow) (w : World)
      → DistinctUsers w.committed.users
      → (SignUp.apply token w).0 ≡ ok (some a)
      → Permitted
          (Request.sign_up_confirm token)
          (view w.committed)
          (view (SignUp.apply token w).1.committed)
  verified_permitted token a w distinct e =
      let p = sign_up-Applied token a w e in
      let (before, after) = view-Applied refl p distinct in
      Permitted.verify token p.row.email (account p.row) before after

  reset_permitted :
      (token password : Text) (a : OperationRow) (w : World)
      → DistinctUsers w.committed.users
      → (PasswordRecovery.apply token password w).0 ≡ ok (some a)
      → Permitted
          (Request.password_recovery_confirm token password)
          (view w.committed)
          (view (PasswordRecovery.apply token password w).1.committed)
  reset_permitted token password a w distinct e =
      let p = password_recovery-Applied token password a w e in
      let (before, after) = view-Applied refl p distinct in
      Permitted.reset token password p.row.email w.entropy (account p.row) before
        (rw (← or_else-encrypted w.entropy password p.row.password) after)

  module _ (config : JwtConfig) (services : List Service) (quiet : AllQuiet services) where
    -- A user is added under a number that no row has.
    registered_permitted :
        (d : EmailAuthCreateData) (w : World) (r : Result (Unit {0}) × World)
        → Auth.sign_up services d w ≡ r
        → Idle w
        → rt.users.get w.user_seq w.committed.users ≡ none
        → Permitted (Request.sign_up d) (view w.committed) (view r.1.committed)
    registered_permitted d w (ok u, v) e idle fresh =
        let p = sign_up-Registered services quiet d w v e in
        let row = signed_up_row d w in
        let t = w.committed.users in
        let last = rt.operations.find (of_user w.user_seq sign_up) w.committed.operations in
        Permitted.register d w.entropy (ap (Option.map account) p.is_new) (
          view-put row t (λ s stored same. let bad = rw same at stored in absurd (cc (fresh, bad)))
            (DistinctUsers-added row t (rt.lower_idem d.email) p.is_new idle.consistent.users)
            w.committed v.committed refl
            (ap (λ (db : Db). db.users) p.done
              ∙ users_same last p.operation (apply_write (put_user row) w.committed)))
    registered_permitted d w (err x, v) e idle fresh =
        let (same, closed) = sign_up-failed services d x w v idle.closed e in
        Permitted.same _ (ap view same)

    light :
        (r : Request) (w : World)
        → IsLight r
        → Permitted r (view w.committed) (view (control config services r w).1.committed)
    light r w h = unchanged r w (control-SameUsers config services quiet r h)

    control-Permitted :
        (r : Request) (w : World)
        → Idle w
        → rt.users.get w.user_seq w.committed.users ≡ none
        → Permitted r (view w.committed) (view (control config services r w).1.committed)
    unfolding control Auth.refresh Auth.sign_up_confirm Auth.sign_up_resend Auth.password_recovery
        Auth.password_recovery_confirm
    control-Permitted (Request.refresh s) w idle fresh = light (Request.refresh s) w tt
    control-Permitted (Request.sign_up d) w idle fresh =
        rw (finished-last (Auth.sign_up services d w))
          (registered_permitted d w (Auth.sign_up services d w) refl idle fresh)
    control-Permitted (Request.sign_up_confirm token) w idle fresh =
        rw (confirmed-last (SignUp.apply token w)) (
          by_outcome _ w (SignUp.apply token w) (sign_up-Atomic token w)
            (λ a. verified_permitted token a w idle.consistent.users))
    control-Permitted (Request.sign_in email password) w idle fresh =
        light (Request.sign_in email password) w tt
    control-Permitted (Request.sign_up_resend email) w idle fresh =
        light (Request.sign_up_resend email) w tt
    control-Permitted (Request.password_recovery email) w idle fresh =
        light (Request.password_recovery email) w tt
    control-Permitted (Request.password_recovery_confirm token password) w idle fresh =
        rw (set-last (PasswordRecovery.apply token password w)) (
          by_outcome _ w (PasswordRecovery.apply token password w)
            (password_recovery-Atomic token password w)
            (λ a. reset_permitted token password a w idle.consistent.users))

    responded : (r : Result Value × World) → (respond r).1 ≡ r.1
    responded (ok v, w) = refl
    responded (err x, w) = refl

    -- Every request refines the abstract service of accounts: where the database is consistent, no
    -- transaction is open and the next number of a user is not taken, and with notification services
    -- that do not touch the database, a request that `handle` answers, whatever calls fail, changes
    -- the accounts only by what the specification permits it: a sign-up adds an unverified account
    -- at a free address, a confirmation marks one account as verified, a recovery sets the password
    -- of one account, and every other request leaves all accounts as they were.
    pub handle-Permitted :
        (r : Request) (w : World)
        → Idle w
        → rt.users.get w.user_seq w.committed.users ≡ none
        → Permitted r (view w.committed) (view (handle config services r w).1.committed)
    unfolding handle
    handle-Permitted r w idle fresh =
        rw (responded (control config services r w)) (control-Permitted r w idle fresh)
