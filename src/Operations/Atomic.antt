-- ===== src/Operations/Atomic.antt =====
-- The transaction that the four `apply` methods of users_operations run in, and the methods of the
-- base class and of `UsersProcessor` as parts of its body.
use trash.Prelude.{
  ◌≡◌, refl, ◌⊎◌, inl, inr, Bool, true, false, Option, none, some, List, [], ◌∷◌, arith,
}
use trash.Entity.{OperationRow}
use trash.Exceptions.{Exception, call_failed}
use trash.Runtime.{Runtime}
use trash.World.{Write, Result, ok, err, World, Action, apply_writes}
use trash.Action.{
  call, catch_with, continue, ◌>>◌, pure, raise, start_transaction, commit_transaction,
  rollback_transaction,
}
use trash.Action.Confined.{Within, Confined}
use trash.Operations.{in_transaction}

module _ ⦃rt : Runtime⦄ where
  abbrev pub started : World → List Bool → World
  started w fs = record w { pending = some []; faults = fs }

  pub start-cases :
      (w : World)
      → ((fs : List Bool) × (start_transaction w ≡ (err call_failed, record w { faults = fs })))
        ⊎ ((fs : List Bool) × (start_transaction w ≡ (ok tt, started w fs)))
  unfolding start_transaction call
  start-cases w = go w.faults refl
    where
      go :
          (fs : List Bool)
          → w.faults ≡ fs
          → ((gs : List Bool) × (start_transaction w ≡ (err call_failed, record w { faults = gs })))
            ⊎ ((gs : List Bool) × (start_transaction w ≡ (ok tt, started w gs)))
      go [] e = inr ([], ground arith)
      go (true ∷ fs) e = inl (fs, ground arith)
      go (false ∷ fs) e = inr (fs, ground arith)

  -- What the `try` and `catch` do with the body's outcome.
  abbrev finish : Result (Option OperationRow) × World → Result (Option OperationRow) × World
  finish r =
      catch_with (continue r (λ operation. commit_transaction >> pure operation))
        (λ x. rollback_transaction >> raise x)

  finish-closed :
      (v : World) (r : Result (Option OperationRow) × World)
      → Within v r.1
      → (finish r).1.pending ≡ none
  unfolding commit_transaction rollback_transaction call
  finish-closed v (ok a, w) i = ground arith
  finish-closed v (err x, w) i = ground arith

  finish-err :
      (v : World) (r : Result (Option OperationRow) × World) (x : Exception)
      → Within v r.1
      → (finish r).0 ≡ err x
      → (finish r).1.committed ≡ v.committed
  unfolding commit_transaction rollback_transaction call
  finish-err v (ok a, w) x i e = ground arith
  finish-err v (err y, w) x i e = ground arith

  abbrev pub apply_pending : World → World
  apply_pending w = applied w.pending
    where
      applied : Option (List Write) → World
      applied none = w
      applied (some ws) = record w { committed = apply_writes ws w.committed }

  finish-ok :
      (r : Result (Option OperationRow) × World) (a : Option OperationRow)
      → (finish r).0 ≡ ok a
      → (r.0 ≡ ok a) × ((finish r).1.committed ≡ (apply_pending r.1).committed)
  unfolding commit_transaction rollback_transaction call
  finish-ok (ok b, w) a e = ground arith
  finish-ok (err x, w) a e = ground arith

  in_transaction-finish :
      (body : Action (Option OperationRow)) (w : World) (fs : List Bool)
      → start_transaction w ≡ (ok tt, started w fs)
      → in_transaction body w ≡ finish (body (started w fs))
  unfolding in_transaction
  in_transaction-finish body w fs e = rw e

  module _ (body : Action (Option OperationRow)) (c : Confined body) (w : World) where
    -- However the calls fail, no transaction is left open.
    pub in_transaction-closed : w.pending ≡ none → (in_transaction body w).1.pending ≡ none
    unfolding in_transaction
    in_transaction-closed h = elim (start-cases w) [
      | inl (fs, e) ↦ rw e h
      | inr (fs, e) ↦
          rw (in_transaction-finish body w fs e)
            (finish-closed w _ (c.at w (started w fs) (record { same = refl; opened = refl })))
    ]

    -- If it ends in an error, what is committed is what was committed before.
    pub in_transaction-err :
        (x : Exception)
        → (in_transaction body w).0 ≡ err x
        → (in_transaction body w).1.committed ≡ w.committed
    unfolding in_transaction
    in_transaction-err x h = elim (start-cases w) [
      | inl (fs, e) ↦ rw e
      | inr (fs, e) ↦ rw (in_transaction-finish body w fs e) (
          finish-err w _ x (c.at w (started w fs) (record { same = refl; opened = refl }))
            (rw (in_transaction-finish body w fs e) at h))
    ]

  -- If it returns, so does the body, and the writes of the body are committed.
  pub in_transaction-ok :
      (body : Action (Option OperationRow)) (w : World) (a : Option OperationRow)
      → (in_transaction body w).0 ≡ ok a
      → (fs : List Bool) × ((body (started w fs)).0 ≡ ok a)
        × ((in_transaction body w).1.committed ≡ (apply_pending (body (started w fs)).1).committed)
  unfolding in_transaction
  in_transaction-ok body w a h = elim (start-cases w) [
    | inl (fs, e) ↦ let bad = rw e at h in cc bad
    | inr (fs, e) ↦
        let (p, q) =
          finish-ok (body (started w fs)) a (rw (in_transaction-finish body w fs e) at h) in
        (fs, p, rw (in_transaction-finish body w fs e) q)
  ]
