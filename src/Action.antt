-- ===== src/Action.antt =====
-- Actions of a request: sequencing, exceptions, and the calls that can fail.
pub mod Confined
pub mod Along
use trash.Prelude.{ℕ, ◌+◌, Bool, true, false, Option, none, some, List, [], ◌∷◌, ◌++◌, Text}
use trash.Exceptions.{Exception, call_failed, transaction_not_started}
use trash.Runtime.{Runtime}
use trash.World.{Write, Result, ok, err, Db, World, Action, apply_write, apply_writes}

module _ ⦃rt : Runtime⦄ where
  abbrev pub pure {ℓ} : {A : Type ℓ} → A → Action A
  pure a w = (ok a, w)

  abbrev pub raise {ℓ} : {A : Type ℓ} → Exception → Action A
  raise x w = (err x, w)

  abbrev pub gets {ℓ} : {A : Type ℓ} → (World → A) → Action A
  gets f w = (ok (f w), w)

  abbrev pub modify : (World → World) → Action (Unit {0})
  modify f w = (ok tt, f w)

  abbrev pub continue {ℓ κ} :
      {A : Type ℓ} {B : Type κ} → Result A × World → (A → Action B) → Result B × World
  continue (ok a, w) f = f a w
  continue (err x, w) f = (err x, w)

  infixl 5 ◌>>=◌ ◌>>◌
  abbrev pub ◌>>=◌ {ℓ κ} : {A : Type ℓ} {B : Type κ} → Action A → (A → Action B) → Action B
  ◌>>=◌ m f w = continue (m w) f

  abbrev pub ◌>>◌ {ℓ κ} : {A : Type ℓ} {B : Type κ} → Action A → Action B → Action B
  ◌>>◌ m k w = continue (m w) (λ _. k)

  -- `try { m } catch (error) { handler(error) }`
  abbrev pub catch_with {ℓ} :
      {A : Type ℓ} → Result A × World → (Exception → Action A) → Result A × World
  catch_with (ok a, w) handler = (ok a, w)
  catch_with (err x, w) handler = handler x w

  abbrev pub try_catch {ℓ} : {A : Type ℓ} → Action A → (Exception → Action A) → Action A
  try_catch m handler w = catch_with (m w) handler

  -- A call of the database, the cache or the broker, which may fail.
  abbrev next_call : List Bool → World → Result (Unit {0}) × World
  next_call [] w = (ok tt, w)
  next_call (true ∷ rest) w = (err call_failed, record w { faults = rest })
  next_call (false ∷ rest) w = (ok tt, record w { faults = rest })

  unfoldable pub call : Action (Unit {0})
  call w = next_call w.faults w

  -- `queryRunner.startTransaction()`
  unfoldable pub start_transaction : Action (Unit {0})
  unfolding call
  start_transaction = do call; modify (λ w. record w { pending = some [] })

  abbrev commit_pending : Option (List Write) → Action (Unit {0})
  commit_pending none = raise transaction_not_started
  commit_pending (some ws) =
      modify (λ w. record w { committed = apply_writes ws w.committed; pending = none })

  -- `queryRunner.commitTransaction()`
  unfoldable pub commit_transaction : Action (Unit {0})
  unfolding call
  commit_transaction = do call; ws ← gets (λ w. w.pending); commit_pending ws

  abbrev rollback_pending : Option (List Write) → Action (Unit {0})
  rollback_pending none = raise transaction_not_started
  rollback_pending (some ws) = modify (λ w. record w { pending = none })

  -- `queryRunner.rollbackTransaction()`
  unfoldable pub rollback_transaction : Action (Unit {0})
  rollback_transaction = do ws ← gets (λ w. w.pending); rollback_pending ws
