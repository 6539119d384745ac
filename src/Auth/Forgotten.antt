-- ===== src/Auth/Forgotten.antt =====
-- An address in capital letters at `passwordRecovery` of
-- apps/auth/src/app/routes/v1/auth/auth.service.ts.
use trash.Prelude.{
  ◌≡◌, ◌≢◌, refl, subst, none, List, [], Text, text_eq, text_eq_iff, Bool-cases, inl, inr,
}
use trash.Runtime.{Runtime}
use trash.Runtime.Finds.{find-none}
use trash.World.{ok, World}
use trash.Database.Laws.{find_user-runs}
use trash.Users.{has_email}
use trash.Operations.PasswordRecovery
use trash.Notifications.{Service}
use trash.Auth
use trash.Invariant.{DistinctUsers}

module _ ⦃rt : Runtime⦄ where
  -- No user is stored with an address that is not in small letters.
  unknown_address :
      (email : Text) (t : rt.users.Rows)
      → DistinctUsers t
      → rt.lower email ≢ email
      → rt.users.find (has_email email) t ≡ none
  unknown_address email t users capital = find-none rt.users (has_email email) t (λ s stored.
      elim (Bool-cases (text_eq s.email email)) [
        | inl same ↦
            let is = (text_eq_iff s.email email).0 same in
            absurd (capital (subst (λ e. rt.lower e ≡ e) is (users.lowered s stored)))
        | inr other ↦ other
      ])

  -- When no call fails, every stored address is in small letters and no two are the same,
  -- `passwordRecovery` with an address that is not in small letters returns and does nothing: it
  -- makes no operation and sends no message, whether there is an account with that address in small
  -- letters or not.
  pub password_recovery-capital :
      (services : List Service) (email : Text) (w : World)
      → w.faults ≡ []
      → DistinctUsers w.committed.users
      → rt.lower email ≢ email
      → Auth.password_recovery services email w ≡ (ok tt, w)
  unfolding Auth.password_recovery PasswordRecovery.create
  password_recovery-capital services email w h users capital =
      rw
        (
          find_user-runs (has_email email) PasswordRecovery.by_email_select w h,
          unknown_address email w.committed.users users capital,
        )
        refl
