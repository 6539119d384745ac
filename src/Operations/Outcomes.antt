-- ===== src/Operations/Outcomes.antt =====
-- How `create` of users_operations ends when it opens its own transaction.
use trash.Prelude.{ℕ, ◌≡◌, refl, inl, inr, Bool, List, Option, none, some, arith, subst}
use trash.Entity.{OperationRow, OperationData}
use trash.Exceptions.{Exception}
use trash.Runtime.{Runtime}
use trash.World.{Result, ok, err, World}
use trash.Action.{call, catch_with, commit_transaction, rollback_transaction}
use trash.Action.Confined.{Within, Confined, commit-err, continue-err}
use trash.Database.{absent, present, insert_operation}
use trash.Users.{recover_own}
use trash.Operations
use trash.Operations.{Options}
use trash.Operations.Atomic.{started, start-cases}
use trash.Operations.Bodies.{close-Confined}
use trash.Operations.Effects.{continue-ok}
use trash.Operations.Unique.{renewed, renewed-some}

module _ ⦃rt : Runtime⦄ where
  -- No transaction is left open, and unless an operation comes back nothing has been committed.
  pub record Ended (w : World) (r : Result (Option OperationRow) × World) : Type 0 where
    pub closed : w.pending ≡ none → r.1.pending ≡ none
    pub no_operation : r.0 ≡ ok none → r.1.committed ≡ w.committed
    pub failed : (x : Exception) → r.0 ≡ err x → r.1.committed ≡ w.committed

  make-Confined :
      (o : Options) (user : ℕ) (content : OperationData)
      → Confined (Operations.create_user_operation o user content present)
  unfolding Operations.create_user_operation insert_operation call
  make-Confined o user content = record { at = λ v w i. ground arith }

  module _ (o : Options) (user : ℕ) (content : OperationData) (w : World) where
    renewed-err :
        (v u u' : World) (x : Exception)
        → Within v u
        → renewed o user content w u ≡ (err x, u')
        → Within v u'
    renewed-err v u u' x i e =
        let closes = Operations.close o user present u in
        let inside = (close-Confined o user).at v u i in
        elim (continue-err closes _ x u' e) [
          | inl fails ↦ subst (λ (r : Result (Unit {0}) × World). Within v r.1) fails inside
          | inr (_, u1, done, rest) ↦
              let within1 = subst (λ (r : Result (Unit {0}) × World). Within v r.1) done inside in
              let makes = Operations.create_user_operation o user content present u1 in
              let inside1 = (make-Confined o user content).at v u1 within1 in
              elim (continue-err makes _ x u' rest) [
                | inl fails ↦
                    subst (λ (r : Result OperationRow × World). Within v r.1) fails inside1
                | inr (_, u2, made, rest1) ↦
                    let within2 =
                      subst (λ (r : Result OperationRow × World). Within v r.1) made inside1 in
                    elim (continue-err (commit_transaction u2) _ x u' rest1) [
                      | inl fails ↦ commit-err x v u2 u' within2 fails
                      | inr (_, u3, _, ends) ↦ absurd (ground arith)
                    ]
              ]
        ]

    renewed-ne-none : (u u' : World) → renewed o user content w u ≡ (ok none, u') → ⊥
    renewed-ne-none u u' e =
        let (_, u1, _, rest) = continue-ok (Operations.close o user present u) _ none u' e in
        let (_, u2, _, rest1) =
          continue-ok (Operations.create_user_operation o user content present u1) _ none u' rest in
        let (_, u3, _, ends) = continue-ok (commit_transaction u2) _ none u' rest1 in cc ends

    recovered :
        (fs : List Bool) (r : Result (Option OperationRow) × World)
        → renewed o user content w (started w fs) ≡ r
        → Ended w (catch_with r (recover_own absent))
    unfolding rollback_transaction
    recovered fs (ok none, u) e = absurd (renewed-ne-none (started w fs) u e)
    recovered fs (ok (some a), u) e = record {
      closed = λ h. (renewed-some o user content w fs a u e).2;
      no_operation = λ h. absurd (ground arith);
      failed = λ x h. absurd (ground arith);
    }
    recovered fs (err y, u) e =
        let i =
          renewed-err (started w fs) (started w fs) u y (record { same = refl; opened = refl }) e in
        record {
          closed = λ h. ground arith;
          no_operation = λ h. ground arith;
          failed = λ x h. ground arith;
        }

    -- Whatever calls fail, `create` with no query runner leaves no transaction open, and unless it
    -- returns an operation what is committed has not changed.
    pub create-Ended : Ended w (Operations.create o user content absent w)
    unfolding Operations.create
    create-Ended = elim (start-cases w) [
      | inl (fs, fails) ↦
          rw fails (record { closed = λ h. h; no_operation = λ h. refl; failed = λ x h. refl })
      | inr (fs, starts) ↦ rw starts (recovered fs (renewed o user content w (started w fs)) refl)
    ]
