-- ===== src/Operations.antt =====
-- `UsersOperationsProcessorAbstract` of
-- apps/auth/src/app/processors/users_operations/users_operations.abstract.processor.ts.
pub mod Target
pub mod Atomic
pub mod Applied
pub mod Unique
pub mod OneEach
pub mod Refusals
pub mod Unchanged
pub mod Effects
pub mod Changes
pub mod Spent
pub mod Outcomes
pub mod Bodies
pub mod SignUp
pub mod PasswordRecovery
pub mod PasswordChange
pub mod EmailChange
use trash.Prelude.{
  ℕ, ◌+◌, ◌*◌, Bool, true, false, ◌&&◌, Option, none, some, Text, ◌==◌, ltb, text_eq, if◌then◌else◌,
}
use trash.Entity.{OperationRow, OperationType, OperationData, same_kind}
use trash.Runtime.{Runtime}
use trash.World.{Result, ok, err, World, Action}
use trash.Action.{
  pure, raise, gets, ◌>>=◌, ◌>>◌, try_catch, start_transaction, commit_transaction,
  rollback_transaction,
}
use trash.Database.{
  Runner, absent, present, NewOperation, get_uuid, find_operation, insert_operation,
  remove_operation,
}
use trash.Users.{start_own, commit_own, recover_own}

-- `IUsersOperationsProcessorOptions`
pub record Options : Type 0 where
  pub kind : OperationType
  pub ttl_in_hours : ℕ

abbrev pub of_user : ℕ → OperationType → OperationRow → Bool
of_user user_id kind r = r.user_id == user_id && same_kind r.kind kind

abbrev pub of_token : Text → OperationType → OperationRow → Bool
of_token token kind r = text_eq r.token token && same_kind r.kind kind

-- `setHours(getHours() + hours)`, in a time zone whose clock does not change in between.
abbrev pub add_hours : ℕ → ℕ → ℕ
add_hours hours date = date + hours * 3600000

module _ ⦃rt : Runtime⦄ where
  abbrev remove_found : Runner → Option OperationRow → Action (Unit {0})
  remove_found runner none = pure tt
  remove_found runner (some operation) = remove_operation runner operation

  -- `_close`: the operation is looked up by the default connection, and removed by the runner.
  unfoldable pub close : Options → ℕ → Runner → Action (Unit {0})
  close o user_id runner = do
    operation ← find_operation absent (of_user user_id o.kind)
    remove_found runner operation

  -- `_createUserOperation`
  unfoldable pub create_user_operation : Options → ℕ → OperationData → Runner → Action OperationRow
  unfolding get_uuid
  create_user_operation o user content runner = do
    token ← get_uuid
    now ← gets (λ w. w.now)
    insert_operation runner (record {
      user_id = user;
      token = token;
      ttl = add_hours o.ttl_in_hours now;
      kind = o.kind;
      content = content;
    })

  -- `create`: its own query runner where the caller gives none, and `present` from there on.
  unfoldable pub create : Options → ℕ → OperationData → Runner → Action (Option OperationRow)
  create o user content runner = do start_own runner; try_catch renewed (recover_own runner)
    where
      renewed : Action (Option OperationRow)
      renewed = do
        close o user present
        operation ← create_user_operation o user content present
        commit_own runner
        pure (some operation)

  abbrev apply_found : Options → Runner → ℕ → Option OperationRow → Action (Option OperationRow)
  apply_found o runner date none = pure none
  apply_found o runner date (some operation) =
      if ltb operation.ttl date
      then pure none
      else do close o operation.user_id runner; pure (some operation)

  -- `apply`
  unfoldable pub apply : Options → Text → Runner → Action (Option OperationRow)
  apply o token runner = do
    operation ← find_operation absent (of_token token o.kind)
    date ← gets (λ w. w.now)
    apply_found o runner date operation

  -- The `try`, `catch` and `finally` that the four processors' `apply` share.
  unfoldable pub in_transaction : Action (Option OperationRow) → Action (Option OperationRow)
  in_transaction body = do
    start_transaction
    try_catch committed (λ x. rollback_transaction >> raise x)
    where
      committed : Action (Option OperationRow)
      committed = do operation ← body; commit_transaction; pure operation
