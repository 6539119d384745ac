-- ===== src/Auth/Once.antt =====
-- `signUpConfirm` and `passwordRecoveryConfirm` of
-- apps/auth/src/app/routes/v1/auth/auth.service.ts, called twice with the token of one
-- notification.
use trash.Prelude.{ℕ, ◌≡◌, refl, sym, Option, none, some, [], Text}
use trash.Entity.{OperationRow}
use trash.Exceptions.{not_found_exception, operation_not_found}
use trash.Runtime.{Runtime}
use trash.World.{Result, ok, err, World}
use trash.Action.{call, continue, start_transaction, commit_transaction}
use trash.Database.{find_operation}
use trash.Operations
use trash.Operations.{in_transaction, of_token}
use trash.Operations.SignUp
use trash.Operations.PasswordRecovery
use trash.Operations.OneEach.{OneEach}
use trash.Operations.Spent.{DistinctTokens, Applied-spent}
use trash.Operations.Refusals.{password_recovery-Atomic}
use trash.Operations.Changes.{sign_up-Applied, password_recovery-Applied}
use trash.Auth

module _ ⦃rt : Runtime⦄ where
  -- The world at another time, when no call fails.
  abbrev pub calm : ℕ → World → World
  calm t w = record w { now = t; faults = [] }

  sign_up-missing :
      (token : Text) (v : World)
      → v.faults ≡ []
      → rt.operations.find (of_token token SignUp.options.kind) v.committed.operations ≡ none
      → (SignUp.apply token v).0 ≡ ok none
  unfolding SignUp.apply in_transaction Operations.apply find_operation start_transaction
      commit_transaction call
  sign_up-missing token v h e = rw (h, e)

  password_recovery-missing :
      (token password : Text) (v : World)
      → v.faults ≡ []
      → rt.operations.find (of_token token PasswordRecovery.options.kind) v.committed.operations
        ≡ none
      → PasswordRecovery.apply token password v ≡ (ok none, record v { pending = none })
  unfolding PasswordRecovery.apply in_transaction Operations.apply find_operation start_transaction
      commit_transaction call
  password_recovery-missing token password v h e = rw (h, e)

  confirmed-some :
      (r : Result (Option OperationRow) × World)
      → (continue r Auth.confirmed).0 ≡ ok tt
      → (a : OperationRow) × (r.0 ≡ ok (some a)) × ((continue r Auth.confirmed).1 ≡ r.1)
  confirmed-some (ok (some a), v) e = (a, refl, refl)
  confirmed-some (ok none, v) e = absurd (cc)
  confirmed-some (err x, v) e = absurd (cc)

  -- Where each user has at most one operation of a kind and no two operations of a kind have the same
  -- token: after a confirmation that returned, a second one with the same token is refused, at any
  -- time at which no call fails.
  pub sign_up_confirm-once :
      (token : Text) (t : ℕ) (w : World)
      → OneEach w.committed
      → DistinctTokens w.committed
      → (Auth.sign_up_confirm token w).0 ≡ ok tt
      → (Auth.sign_up_confirm token (calm t (Auth.sign_up_confirm token w).1)).0
        ≡ err (not_found_exception operation_not_found)
  unfolding Auth.sign_up_confirm
  sign_up_confirm-once token t w each distinct e =
      let (a, returns, same) = confirmed-some (SignUp.apply token w) e in
      let spent = Applied-spent each distinct (sign_up-Applied token a w returns) in
      rw same (
        refuses (SignUp.apply token (calm t (SignUp.apply token w).1))
          (sign_up-missing token (calm t (SignUp.apply token w).1) refl spent))
    where
      refuses :
          (r : Result (Option OperationRow) × World)
          → r.0 ≡ ok none
          → (continue r Auth.confirmed).0 ≡ err (not_found_exception operation_not_found)
      refuses (ok none, v) h = refl
      refuses (ok (some b), v) h = absurd (cc)
      refuses (err x, v) h = absurd (cc)

  -- Where each user has at most one operation of a kind, no two operations of a kind have the same
  -- token and no transaction is open: after a recovery that set a password, a second one with the
  -- same token changes nothing, and yet it returns as if it had, at any time at which no call
  -- fails.
  pub password_recovery_confirm-once :
      (token password other : Text) (operation : OperationRow) (t : ℕ) (w : World)
      → OneEach w.committed
      → DistinctTokens w.committed
      → w.pending ≡ none
      → (PasswordRecovery.apply token password w).0 ≡ ok (some operation)
      → Auth.password_recovery_confirm token other
          (calm t (PasswordRecovery.apply token password w).1)
        ≡ (ok tt, calm t (PasswordRecovery.apply token password w).1)
  unfolding Auth.password_recovery_confirm
  password_recovery_confirm-once token password other operation t w each distinct open_ e =
      let spent =
        Applied-spent each distinct (password_recovery-Applied token password operation w e) in
      let v = calm t (PasswordRecovery.apply token password w).1 in
      let closed = (password_recovery-Atomic token password w).closed open_ in
      rw (password_recovery-missing token other v refl spent)
        (λ i. (ok tt, record v { pending = sym closed i }))
