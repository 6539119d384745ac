-- ===== src/Tests/Consistent.antt =====
-- The invariants and the lives of an operation, at concrete states.
use trash.Prelude.{◌≡◌, refl, codes, text_eq, arith}
use trash.Entity.{same_kind, password_recovery, null}
use trash.Runtime.Sample.{sample}
use trash.World.{ok, err}
use trash.Action.{start_transaction, commit_transaction}
use trash.Database.{
  absent, find_user, find_operation, update_user, insert_operation, remove_operation,
}
use trash.Exceptions.{not_found_exception, operation_not_found}
use trash.Users
use trash.Operations
use trash.Operations.{in_transaction}
use trash.Operations.SignUp
use trash.Operations.PasswordRecovery
use trash.Operations.Unique.{Created, created, create-some}
use trash.Operations.OneEach.{OneEach}
use trash.Operations.Spent.{DistinctTokens}
use trash.Cache
use trash.Sessions.{drop_all, delete}
use trash.Auth
use trash.Auth.Once.{calm, sign_up_confirm-once, password_recovery_confirm-once}
use trash.Notifications.Laws.{email_service-Quiet}
use trash.Invariant.{Idle}
use trash.Invariant.Reach.{here, next, request, Reach-Idle}
use trash.Routes
use trash.Tests.Worlds.{
  token, operation_of, empty_world, waiting_world, recovery_world, jwt_config, ann, services,
}

waiting-OneEach : OneEach waiting_world.committed
waiting-OneEach = record { one = λ r s h k _ _. ground (arith, h, k) }

waiting-DistinctTokens : DistinctTokens waiting_world.committed
waiting-DistinctTokens = record { one = λ r s h k _ _. ground (arith, h, k) }

recovery-OneEach : OneEach recovery_world.committed
recovery-OneEach = record { one = λ r s h k _ _. ground (arith, h, k) }

recovery-DistinctTokens : DistinctTokens recovery_world.committed
recovery-DistinctTokens = record { one = λ r s h k _ _. ground (arith, h, k) }

pub empty-Idle : Idle empty_world
empty-Idle = record {
  consistent = record {
    users = record { lowered = λ r h. cc h; unique = λ r s h k e. cc h };
    operations = record { one = λ r s h k _ _. cc h };
  };
  closed = refl;
}

create-some_example :
    Created SignUp.options 1 null waiting_world
      (created SignUp.options 1 null waiting_world)
      (Operations.create SignUp.options 1 null absent waiting_world).1
unfolding Operations.create Operations.close Operations.create_user_operation find_operation
    insert_operation remove_operation start_transaction commit_transaction text_eq same_kind
create-some_example =
    create-some SignUp.options 1 null waiting_world (created SignUp.options 1 null waiting_world)
      (Operations.create SignUp.options 1 null absent waiting_world).1 refl

sign_up_confirm-once_example :
    (Auth.sign_up_confirm token (calm 3 (Auth.sign_up_confirm token waiting_world).1)).0
    ≡ err (not_found_exception operation_not_found)
unfolding Auth.sign_up_confirm SignUp.apply in_transaction Operations.apply Operations.close
    Users.update find_operation find_user update_user remove_operation start_transaction
    commit_transaction text_eq same_kind
sign_up_confirm-once_example =
    sign_up_confirm-once token 3 waiting_world waiting-OneEach waiting-DistinctTokens refl

password_recovery_confirm-once_example :
    Auth.password_recovery_confirm token
      (codes "0ther-pass")
      (calm 3 (PasswordRecovery.apply token (codes "N3w-pass") recovery_world).1)
    ≡ (ok tt, calm 3 (PasswordRecovery.apply token (codes "N3w-pass") recovery_world).1)
unfolding PasswordRecovery.apply in_transaction Operations.apply Operations.close Users.update
    find_operation find_user update_user remove_operation start_transaction commit_transaction
    text_eq same_kind drop_all delete Cache.del
password_recovery_confirm-once_example =
    password_recovery_confirm-once token (codes "N3w-pass") (codes "0ther-pass")
      (operation_of password_recovery null) 3 recovery_world recovery-OneEach
      recovery-DistinctTokens refl refl

Reach-Idle_example :
    Idle (Routes.handle jwt_config services (Routes.Request.sign_up ann) empty_world).1
Reach-Idle_example =
    Reach-Idle jwt_config services (email_service-Quiet (codes "x.io"), tt) empty-Idle
      (next here (request empty_world (Routes.Request.sign_up ann)))
