-- ===== src/Operations/Refusals.antt =====
-- The four `apply` methods of users_operations when they do not return an operation.
use trash.Prelude.{◌≡◌, refl, ap, sym, ◌∙◌, Option, none, some, [], Text, arith}
use trash.Entity.{OperationRow}
use trash.Exceptions.{Exception}
use trash.Runtime.{Runtime}
use trash.World.{Result, ok, err, World, Action}
use trash.Action.{◌>>=◌}
use trash.Action.Confined.{Confined}
use trash.Database.{present}
use trash.Operations
use trash.Operations.{Options, in_transaction}
use trash.Operations.Atomic.{
  in_transaction-ok, in_transaction-closed, in_transaction-err, apply_pending, started,
}
use trash.Operations.Applied.{apply-none}
use trash.Operations.Effects.{continue-ok}
use trash.Operations.Bodies.{
  sign_up_body-Confined, recovery_body-Confined, change_body-Confined, email_body-Confined,
}
use trash.Operations.SignUp
use trash.Operations.PasswordRecovery
use trash.Operations.PasswordChange
use trash.Operations.EmailChange

module _ ⦃rt : Runtime⦄ where
  pub record Atomic (w : World) (r : Result (Option OperationRow) × World) : Type 0 where
    pub closed : w.pending ≡ none → r.1.pending ≡ none
    pub failed : (x : Exception) → r.0 ≡ err x → r.1.committed ≡ w.committed
    pub refused : r.0 ≡ ok none → r.1.committed ≡ w.committed

  -- What follows the removal returns nothing only if nothing was removed.
  abbrev Passes : (Option OperationRow → Action (Option OperationRow)) → Type 0
  Passes next =
      (a : Option OperationRow) (u v : World) → next a u ≡ (ok none, v) → (a ≡ none) × (u ≡ v)

  unchanged : (v : World) → v.pending ≡ some [] → (apply_pending v).committed ≡ v.committed
  unchanged v h = rw (h, apply_pending)

  in_transaction-Atomic :
      (o : Options) (token : Text) (next : Option OperationRow → Action (Option OperationRow))
      → Confined (Operations.apply o token present >>= next)
      → Passes next
      → (w : World) → Atomic w (in_transaction (Operations.apply o token present >>= next) w)
  in_transaction-Atomic o token next confined passes w = record {
    closed = in_transaction-closed _ confined w;
    failed = in_transaction-err _ confined w;
    refused = λ e.
        let body : Action (Option OperationRow) = Operations.apply o token present >>= next in
        let (fs, p, c) = in_transaction-ok body w none e in
        let v = started w fs in
        let r = body v in
        let whole : r ≡ (ok none, r.1) = λ i. (p i, r.1) in
        let (a, u, applies, rest) =
          continue-ok (Operations.apply o token present v) next none r.1 whole in
        let (is_none, last) = passes a u r.1 rest in
        let (pending, view) = apply-none v u o token (rw is_none at applies) in
        c
        ∙ unchanged r.1 (ap (λ (x : World). x.pending) (sym last) ∙ pending)
        ∙ ap (λ (x : World). x.committed) (sym last)
        ∙ view.committed;
  }

  confirm-Passes : Passes SignUp.confirm
  confirm-Passes none u v e = (refl, ap (λ (r : Result (Option OperationRow) × World). r.1) e)
  confirm-Passes (some r) u v e = absurd (ground arith)

  set_recovered-Passes : (password : Text) → Passes (PasswordRecovery.set_password password)
  set_recovered-Passes password none u v e =
      (refl, ap (λ (r : Result (Option OperationRow) × World). r.1) e)
  set_recovered-Passes password (some r) u v e = absurd (ground arith)

  set_changed-Passes : Passes PasswordChange.set_password
  set_changed-Passes none u v e = (refl, ap (λ (r : Result (Option OperationRow) × World). r.1) e)
  set_changed-Passes (some r) u v e = absurd (ground arith)

  set_email-Passes : Passes EmailChange.set_email
  set_email-Passes none u v e = (refl, ap (λ (r : Result (Option OperationRow) × World). r.1) e)
  set_email-Passes (some r) u v e = absurd (ground arith)

  pub sign_up-Atomic : (token : Text) (w : World) → Atomic w (SignUp.apply token w)
  unfolding SignUp.apply
  sign_up-Atomic token =
      in_transaction-Atomic SignUp.options token SignUp.confirm (sign_up_body-Confined token)
        confirm-Passes

  pub password_recovery-Atomic :
      (token password : Text) (w : World) → Atomic w (PasswordRecovery.apply token password w)
  unfolding PasswordRecovery.apply
  password_recovery-Atomic token password =
      in_transaction-Atomic PasswordRecovery.options token (PasswordRecovery.set_password password)
        (recovery_body-Confined token password) (set_recovered-Passes password)

  pub password_change-Atomic : (token : Text) (w : World) → Atomic w (PasswordChange.apply token w)
  unfolding PasswordChange.apply
  password_change-Atomic token =
      in_transaction-Atomic PasswordChange.options token PasswordChange.set_password
        (change_body-Confined token) set_changed-Passes

  pub email_change-Atomic : (token : Text) (w : World) → Atomic w (EmailChange.apply token w)
  unfolding EmailChange.apply
  email_change-Atomic token =
      in_transaction-Atomic EmailChange.options token EmailChange.set_email
        (email_body-Confined token) set_email-Passes
