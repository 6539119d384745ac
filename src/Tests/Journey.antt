-- ===== src/Tests/Journey.antt =====
-- A sign-up with its confirmation and the sign-in after it, and a forgotten password, at concrete
-- states.
use trash.Prelude.{◌≡◌, ◌≢◌, refl, some, [], ◌∷◌, codes, text_eq, subst, sym, arith}
use trash.Entity.{UserRow, OperationRow, same_kind, sign_up, null}
use trash.Runtime.Sample.{sample}
use trash.World.{ok, World}
use trash.Action.{start_transaction, commit_transaction, rollback_transaction}
use trash.Database.{find_user, find_operation, insert_user, insert_operation, remove_operation}
use trash.Users
use trash.Operations
use trash.Operations.SignUp
use trash.Operations.OneEach.{Stored}
use trash.Operations.Spent.{DistinctTokens}
use trash.Broker
use trash.Sessions.{create_tokens}
use trash.Sessions.Laws.{new_key}
use trash.Notifications.{broadcast, email_service, message}
use trash.Notifications.Laws.{email_service-Quiet}
use trash.Auth
use trash.Auth.Once.{calm}
use trash.Auth.Journey.{sign_in-sign_up}
use trash.Auth.Forgotten.{password_recovery-capital}
use trash.Invariant.{DistinctUsers}
use trash.Tests.Consistent.{empty-Idle}
use trash.Tests.Worlds.{empty_world, ann_world, ann_row, ann_email, jwt_config, ann, services}

abbrev ann_operation : OperationRow
ann_operation = record {
  id = 1;
  user_id = 1;
  kind = sign_up;
  ttl = 260200000;
  token = 117 ∷ 1 ∷ [];
  content = null;
  created_at = 1000000;
  updated_at = 1000000;
}

abbrev signed_up_world : World
signed_up_world = (Auth.sign_up services ann empty_world).1

signed_up : Auth.sign_up services ann empty_world ≡ (ok tt, signed_up_world)
unfolding Auth.sign_up Users.auth_data Users.create SignUp.create Operations.create Operations.close
    Operations.create_user_operation find_user find_operation insert_user insert_operation
    remove_operation start_transaction commit_transaction rollback_transaction broadcast
    email_service message Broker.send text_eq same_kind
signed_up = refl

one_operation : signed_up_world.committed.operations ≡ ann_operation ∷ []
unfolding Auth.sign_up Users.auth_data Users.create SignUp.create Operations.create Operations.close
    Operations.create_user_operation find_user find_operation insert_user insert_operation
    remove_operation start_transaction commit_transaction rollback_transaction broadcast
    email_service message Broker.send text_eq same_kind
one_operation = refl

signed_up-Stored : Stored ann_operation signed_up_world.committed
signed_up-Stored =
    subst (λ t. sample.operations.get 1 t ≡ some ann_operation) (sym one_operation) refl

signed_up-DistinctTokens : DistinctTokens signed_up_world.committed
signed_up-DistinctTokens = record {
  one = λ r s h k _ _.
      one r s (subst (λ t. sample.operations.get r.id t ≡ some r) one_operation h)
        (subst (λ t. sample.operations.get s.id t ≡ some s) one_operation k);
}
  where
    one :
        (r s : OperationRow)
        → sample.operations.get r.id (ann_operation ∷ []) ≡ some r
        → sample.operations.get s.id (ann_operation ∷ []) ≡ some s
        → r.id ≡ s.id
    one r s h k = ground (arith, h, k)

sign_in-sign_up_example :
    ((Auth.sign_up_confirm (117 ∷ 1 ∷ []) (calm 2000000 signed_up_world)).0 ≡ ok tt)
    × ((Auth.sign_in jwt_config
          (codes "Ann@x.io")
          (codes "Passw0rd!")
          (calm 3000000 (Auth.sign_up_confirm (117 ∷ 1 ∷ []) (calm 2000000 signed_up_world)).1)).0
        ≡ ok (
            create_tokens jwt_config
              (new_key 1 (
                calm 3000000
                  (Auth.sign_up_confirm (117 ∷ 1 ∷ []) (calm 2000000 signed_up_world)).1))
              3000000))
sign_in-sign_up_example =
    sign_in-sign_up services ann jwt_config ann_operation 2000000 3000000 empty_world
      signed_up_world (email_service-Quiet (codes "x.io"), tt) empty-Idle refl signed_up
      signed_up-DistinctTokens signed_up-Stored refl refl refl

ann-DistinctUsers : DistinctUsers ann_world.committed.users
ann-DistinctUsers = record {
  lowered = λ r h. lowered r h;
  unique = λ r s h k _. ground (arith, h, k);
}
  where
    address : (r : UserRow) → sample.users.get r.id (ann_row ∷ []) ≡ some r → ann_email ≡ r.email
    address r h = ground (arith, h)

    lowered :
        (r : UserRow)
        → sample.users.get r.id (ann_row ∷ []) ≡ some r
        → sample.lower r.email ≡ r.email
    lowered r h = subst (λ e. sample.lower e ≡ e) (address r h) refl

capital_address : sample.lower (codes "ANN@x.io") ≢ codes "ANN@x.io"
capital_address e = ground (arith, e)

password_recovery-capital_example :
    Auth.password_recovery services (codes "ANN@x.io") ann_world ≡ (ok tt, ann_world)
password_recovery-capital_example =
    password_recovery-capital services (codes "ANN@x.io") ann_world refl ann-DistinctUsers
      capital_address
