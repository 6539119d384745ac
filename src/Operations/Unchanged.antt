-- ===== src/Operations/Unchanged.antt =====
-- What is committed after an `apply` or a `create` of users_operations that returns no operation
-- (apps/auth/src/app/processors/users_operations).
use trash.Prelude.{ℕ, ◌≡◌, refl, Option, none, some, Text}
use trash.Entity.{OperationRow, OperationData}
use trash.Runtime.{Runtime}
use trash.World.{Result, ok, err, World}
use trash.Database.{absent}
use trash.Operations
use trash.Operations.{Options}
use trash.Operations.SignUp
use trash.Operations.PasswordRecovery
use trash.Operations.PasswordChange
use trash.Operations.EmailChange
use trash.Operations.Refusals.{
  Atomic, sign_up-Atomic, password_recovery-Atomic, password_change-Atomic, email_change-Atomic,
}
use trash.Operations.Outcomes.{Ended, create-Ended}

module _ ⦃rt : Runtime⦄ where
  -- No transaction is open, and without an operation nothing has been committed.
  abbrev pub Unchanged : World → Result (Option OperationRow) × World → Type 0
  Unchanged w (ok (some operation), w') = w'.pending ≡ none
  Unchanged w (ok none, w') = (w'.committed ≡ w.committed) × (w'.pending ≡ none)
  Unchanged w (err x, w') = (w'.committed ≡ w.committed) × (w'.pending ≡ none)

  Atomic-Unchanged :
      (w : World) (r : Result (Option OperationRow) × World)
      → w.pending ≡ none
      → Atomic w r
      → Unchanged w r
  Atomic-Unchanged w (ok (some operation), w') h a = a.closed h
  Atomic-Unchanged w (ok none, w') h a = (a.refused refl, a.closed h)
  Atomic-Unchanged w (err x, w') h a = (a.failed x refl, a.closed h)

  Ended-Unchanged :
      (w : World) (r : Result (Option OperationRow) × World)
      → w.pending ≡ none
      → Ended w r
      → Unchanged w r
  Ended-Unchanged w (ok (some operation), w') h a = a.closed h
  Ended-Unchanged w (ok none, w') h a = (a.no_operation refl, a.closed h)
  Ended-Unchanged w (err x, w') h a = (a.failed x refl, a.closed h)

  sign_up_apply-Unchanged :
      (token : Text) (w : World) → w.pending ≡ none → Unchanged w (SignUp.apply token w)
  sign_up_apply-Unchanged token w h = Atomic-Unchanged w _ h (sign_up-Atomic token w)

  password_recovery_apply-Unchanged :
      (token password : Text) (w : World)
      → w.pending ≡ none
      → Unchanged w (PasswordRecovery.apply token password w)
  password_recovery_apply-Unchanged token password w h =
      Atomic-Unchanged w _ h (password_recovery-Atomic token password w)

  password_change_apply-Unchanged :
      (token : Text) (w : World) → w.pending ≡ none → Unchanged w (PasswordChange.apply token w)
  password_change_apply-Unchanged token w h =
      Atomic-Unchanged w _ h (password_change-Atomic token w)

  email_change_apply-Unchanged :
      (token : Text) (w : World) → w.pending ≡ none → Unchanged w (EmailChange.apply token w)
  email_change_apply-Unchanged token w h = Atomic-Unchanged w _ h (email_change-Atomic token w)

  create-Unchanged :
      (o : Options) (user : ℕ) (content : OperationData) (w : World)
      → w.pending ≡ none
      → Unchanged w (Operations.create o user content absent w)
  create-Unchanged o user content w h = Ended-Unchanged w _ h (create-Ended o user content w)

  -- With no transaction open before, and whatever calls fail: each of the four `apply` (of the
  -- sign-up, the password recovery, the password change and the email change), and `create` with
  -- no query runner, leaves no transaction open, and unless it returns an operation what is
  -- committed has not changed.
  pub operations-Unchanged :
      (w : World)
      → w.pending ≡ none
      → ((token : Text) → Unchanged w (SignUp.apply token w))
        × ((token password : Text) → Unchanged w (PasswordRecovery.apply token password w))
        × ((token : Text) → Unchanged w (PasswordChange.apply token w))
        × ((token : Text) → Unchanged w (EmailChange.apply token w))
        × ((o : Options) (user : ℕ) (content : OperationData)
            → Unchanged w (Operations.create o user content absent w))
  operations-Unchanged w h = (
    λ token. sign_up_apply-Unchanged token w h,
    λ token password. password_recovery_apply-Unchanged token password w h,
    λ token. password_change_apply-Unchanged token w h,
    λ token. email_change_apply-Unchanged token w h,
    λ o user content. create-Unchanged o user content w h,
  )
