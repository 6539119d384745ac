-- ===== src/Accounts/Fresh.antt =====
-- The numbers of users that have not been used: no row has the next one or a later one, and no
-- request to AuthController changes that.
use trash.Prelude.{
  ℕ, suc, ◌≤◌, ◌≡◌, refl, sym, ap, subst, ◌∙◌, false, ◌==◌, Option, none, some, List, Text, arith,
  Bool-cases, inl, inr, ==_iff,
}
use trash.Entity.{sign_up, UserRow, OperationRow, UserUpdate}
use trash.Runtime.{Runtime}
use trash.World.{apply_write, put_user, Result, ok, err, Db, World}
use trash.Users.{EmailAuthCreateData}
use trash.Sessions.{JwtConfig}
use trash.Operations.{Options, of_user}
use trash.Operations.SignUp
use trash.Operations.PasswordRecovery
use trash.Operations.Applied.{updated}
use trash.Operations.Effects.{Applied}
use trash.Operations.Changes.{sign_up-Applied, password_recovery-Applied}
use trash.Operations.Refusals.{Atomic, sign_up-Atomic, password_recovery-Atomic}
use trash.Notifications.{Service}
use trash.Auth
use trash.Auth.Atomic.{sign_up-failed}
use trash.Auth.Making.{AllQuiet, signed_up_row}
use trash.Auth.Stored.{sign_up-Registered}
use trash.Routes.{Request, Value, handle, control, respond}
use trash.Accounts.Untouched.{SameUsers}
use trash.Accounts.Growth.{Grows, sign_up_apply-Grows, recovery_apply-Grows}
use trash.Accounts.Numbers.{AllGrow, sign_up-Grows, sign_up-taken}
use trash.Accounts.Requests.{IsLight, control-SameUsers, control-Grows}
use trash.Invariant.{StoredUser, Idle}
use trash.Invariant.Tables.{users_replaced, users_same}
use trash.Accounts.Refines.{confirmed-last, set-last, finished-last}

module _ ⦃rt : Runtime⦄ where
  pub record Fresh (w : World) : Type 0 where
    pub free : (n : ℕ) → w.user_seq ≤ n → rt.users.get n w.committed.users ≡ none

  pub Fresh-same : (w v : World) → SameUsers w v → Grows w v → Fresh w → Fresh v
  Fresh-same w v s g f = record {
    free = λ n h. ap (rt.users.get n) s ∙ f.free n (omega (arith, g, h));
  }

  -- A row has been put where there was one, or where one was free and is not any more.
  put-free :
      (a : UserRow) (n : ℕ) (t : rt.users.Rows)
      → (a.id == n) ≡ false
      → rt.users.get n t ≡ none
      → rt.users.get n (rt.users.put a t) ≡ none
  put-free a n t other free = rt.users.get-put n a t ∙ rw other free

  Fresh-put :
      (a old : UserRow) (w v : World)
      → StoredUser old w.committed.users
      → a.id ≡ old.id
      → v.committed.users ≡ rt.users.put a w.committed.users
      → Grows w v
      → Fresh w
      → Fresh v
  Fresh-put a old w v stored own put g f = record {
    free = λ n h.
        let free = f.free n (omega (arith, g, h)) in
        elim (Bool-cases (a.id == n)) [
          | inl is ↦
              let same = sym own ∙ (==_iff a.id n).0 is in
              let there = subst (λ k. rt.users.get k w.committed.users ≡ some old) same stored in
              absurd (cc (free, there))
          | inr other ↦ ap (rt.users.get n) put ∙ put-free a n w.committed.users other free
        ];
  }

  Fresh-new :
      (a : UserRow) (w v : World)
      → a.id ≡ w.user_seq
      → v.committed.users ≡ rt.users.put a w.committed.users
      → suc w.user_seq ≤ v.user_seq
      → Fresh w
      → Fresh v
  Fresh-new a w v own put taken f = record {
    free = λ n h.
        ap (rt.users.get n) put
        ∙ put-free a n w.committed.users (ground (arith, own, taken, h))
            (f.free n (omega (arith, taken, h)));
  }

  Applied-Fresh :
      {o : Options} {token : Text} {d : UserUpdate} {w w' : World} {a : OperationRow}
      → Applied o token d w w' a
      → Grows w w'
      → Fresh w
      → Fresh w'
  Applied-Fresh {d = d} {w = w} {w' = w'} p g f =
      Fresh-put (updated d w p.row) p.row w w' p.stored refl
        (ap (λ (db : Db). db.users) p.done ∙ users_replaced _ (updated d w p.row) w.committed) g f

  by_outcome :
      (w : World) (r : Result (Option OperationRow) × World)
      → Atomic w r
      → Grows w r.1
      → Fresh w
      → ((a : OperationRow) → r.0 ≡ ok (some a) → Fresh r.1)
      → Fresh r.1
  by_outcome w (ok none, v) atomic g f done =
      Fresh-same w v (ap (λ (db : Db). db.users) (atomic.refused refl)) g f
  by_outcome w (ok (some a), v) atomic g f done = done a refl
  by_outcome w (err x, v) atomic g f done =
      Fresh-same w v (ap (λ (db : Db). db.users) (atomic.failed x refl)) g f

  module _ (config : JwtConfig) (services : List Service) (quiet : AllQuiet services)
      (grow : AllGrow services) where
    signed_up :
        (d : EmailAuthCreateData) (w : World) (r : Result (Unit {0}) × World)
        → Auth.sign_up services d w ≡ r
        → Grows w r.1
        → Idle w
        → Fresh w
        → Fresh r.1
    signed_up d w (ok tt, v) e g idle f =
        let p = sign_up-Registered services quiet d w v e in
        let row = signed_up_row d w in
        let last = rt.operations.find (of_user w.user_seq sign_up) w.committed.operations in
        Fresh-new row w v refl
          (ap (λ (db : Db). db.users) p.done
            ∙ users_same last p.operation (apply_write (put_user row) w.committed))
          (sign_up-taken services grow d w v e) f
    signed_up d w (err x, v) e g idle f =
        let (same, closed) = sign_up-failed services d x w v idle.closed e in
        Fresh-same w v (ap (λ (db : Db). db.users) same) g f

    light-Fresh :
        (r : Request) (w : World) → IsLight r → Fresh w → Fresh (control config services r w).1
    light-Fresh r w h f =
        Fresh-same w (control config services r w).1
          ((control-SameUsers config services quiet r h).at w)
          ((control-Grows config services grow r).at w) f

    control-Fresh :
        (r : Request) (w : World) → Idle w → Fresh w → Fresh (control config services r w).1
    unfolding control Auth.sign_up_confirm Auth.password_recovery_confirm
    control-Fresh (Request.sign_up d) w idle f = rw (finished-last (Auth.sign_up services d w)) (
        signed_up d w (Auth.sign_up services d w) refl ((sign_up-Grows services grow d).at w) idle
          f)
    control-Fresh (Request.sign_up_confirm token) w idle f =
        let g = (sign_up_apply-Grows token).at w in
        rw (confirmed-last (SignUp.apply token w)) (
          by_outcome w (SignUp.apply token w) (sign_up-Atomic token w) g f
            (λ a e. Applied-Fresh (sign_up-Applied token a w e) g f))
    control-Fresh (Request.password_recovery_confirm token password) w idle f =
        let g = (recovery_apply-Grows token password).at w in
        rw (set-last (PasswordRecovery.apply token password w)) (
          by_outcome w (PasswordRecovery.apply token password w)
            (password_recovery-Atomic token password w) g f
            (λ a e. Applied-Fresh (password_recovery-Applied token password a w e) g f))
    control-Fresh (Request.refresh s) w idle f = light-Fresh (Request.refresh s) w tt f
    control-Fresh (Request.sign_in email password) w idle f =
        light-Fresh (Request.sign_in email password) w tt f
    control-Fresh (Request.sign_up_resend email) w idle f =
        light-Fresh (Request.sign_up_resend email) w tt f
    control-Fresh (Request.password_recovery email) w idle f =
        light-Fresh (Request.password_recovery email) w tt f

    responded-Fresh : (r : Result Value × World) → Fresh r.1 → Fresh (respond r).1
    responded-Fresh (ok v, w) f = f
    responded-Fresh (err x, w) f = f

    pub handle-Fresh :
        (r : Request) (w : World) → Idle w → Fresh w → Fresh (handle config services r w).1
    unfolding handle
    handle-Fresh r w idle f =
        responded-Fresh (control config services r w) (control-Fresh r w idle f)
