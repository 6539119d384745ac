-- ===== src/Users.antt =====
-- `UsersProcessor` of apps/auth/src/app/processors/users/users.processor.ts.
use trash.Prelude.{ℕ, Bool, false, Option, none, some, Text, ◌==◌, text_eq}
use trash.Entity.{UserRow, User, NewUser, UserUpdate, default_select, select_all, assign}
use trash.Exceptions.{Exception, type_error}
use trash.Runtime.{Runtime}
use trash.World.{Action}
use trash.Action.{
  pure, raise, ◌>>=◌, ◌>>◌, try_catch, start_transaction, commit_transaction, rollback_transaction,
}
use trash.Database.{Runner, absent, present, find_user, insert_user, update_user}

-- `IEmailAuthCreateData`
pub record EmailAuthCreateData : Type 0 where
  pub email : Text
  pub password : Text

abbrev pub has_email : Text → UserRow → Bool
has_email email r = text_eq r.email email

abbrev pub has_id : ℕ → UserRow → Bool
has_id id r = r.id == id

module _ ⦃rt : Runtime⦄ where
  unfoldable pub auth_data : Text → Action (Option User)
  auth_data email = find_user absent (has_email (rt.lower email)) select_all

  -- With no query runner of the caller's, the processor's own transaction.
  abbrev pub start_own : Runner → Action (Unit {0})
  start_own absent = start_transaction
  start_own present = pure tt

  abbrev pub commit_own : Runner → Action (Unit {0})
  commit_own absent = commit_transaction
  commit_own present = pure tt

  -- The `catch` of `create`: an error of a caller's transaction is thrown on, and one of the
  -- processor's own is dropped after the rollback, so that `create` returns `undefined`.
  abbrev pub recover_own {ℓ} : {A : Type ℓ} → Runner → Exception → Action (Option A)
  recover_own present x = raise x
  recover_own absent x = do rollback_transaction; pure none

  unfoldable pub create : EmailAuthCreateData → Runner → Action (Option User)
  create d runner = do start_own runner; try_catch (insert runner) (recover_own runner)
    where
      new : NewUser
      new = record { email = rt.lower d.email; password = d.password; email_verified = false }

      insert : Runner → Action (Option User)
      insert r = do user ← insert_user r new; commit_own r; pure (some user)

  abbrev save_assigned : UserUpdate → Runner → Option User → Action (Unit {0})
  save_assigned d runner none = raise type_error
  save_assigned d runner (some u) = update_user runner (assign u d)

  -- `update`: `Object.assign(undefined, data)` throws.
  unfoldable pub update : ℕ → UserUpdate → Runner → Action (Unit {0})
  update user_id d runner = do
    found ← find_user absent (has_id user_id) default_select
    save_assigned d runner found
