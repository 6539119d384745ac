-- ===== src/Tests/Lockout.antt =====
-- An account that an email change has locked out, at a concrete state.
use trash.Prelude.{◌≡◌, ◌≢◌, refl, some, [], ◌∷◌, codes, text_eq, arith}
use trash.Entity.{UserRow, same_kind, email_change, email_data}
use trash.Runtime.Sample.{sample}
use trash.World.{ok, World}
use trash.Action.{start_transaction, commit_transaction}
use trash.Database.{find_user, count_users, find_operation, update_user, remove_operation}
use trash.Users
use trash.Operations
use trash.Operations.{in_transaction}
use trash.Operations.EmailChange
use trash.Cache
use trash.Sessions.{drop_all, delete, create_tokens}
use trash.Sessions.Laws.{new_key}
use trash.Auth
use trash.Auth.SignIn.{MaySignIn, sign_in_complete}
use trash.Auth.Lockout.{email_change-locked}
use trash.Tests.Worlds.{token, operation_of, email_world, ann_row, jwt_config}

abbrev bob_row : UserRow
bob_row = record ann_row { id = 2; email = codes "bob@x.io" }

abbrev two_world : World
two_world = record email_world {
  committed = record email_world.committed { users = ann_row ∷ bob_row ∷ [] };
}

abbrev moved_world : World
moved_world = (EmailChange.apply token two_world).1

bob-MaySignIn : MaySignIn (codes "bob@x.io") (codes "Passw0rd!") moved_world bob_row
unfolding EmailChange.apply EmailChange.checkout_email count_users in_transaction Operations.apply
    Operations.close Users.update find_operation find_user update_user remove_operation
    start_transaction commit_transaction text_eq same_kind drop_all delete Cache.del
    Auth.password_compare
bob-MaySignIn = record { account = refl; right = refl; verified = refl }

moved_faults : moved_world.faults ≡ []
unfolding EmailChange.apply EmailChange.checkout_email count_users in_transaction Operations.apply
    Operations.close Users.update find_operation find_user update_user remove_operation
    start_transaction commit_transaction text_eq same_kind drop_all delete Cache.del
moved_faults = refl

bob_tokens : Auth.sign_in jwt_config (codes "bob@x.io") (codes "Passw0rd!") moved_world ≡ (
  ok (create_tokens jwt_config (new_key 2 moved_world) moved_world.now),
  (Auth.sign_in jwt_config (codes "bob@x.io") (codes "Passw0rd!") moved_world).1,
)
bob_tokens =
    let e =
      sign_in_complete jwt_config (codes "bob@x.io") (codes "Passw0rd!") bob_row moved_world
        moved_faults bob-MaySignIn in
    λ i. (e i, (Auth.sign_in jwt_config (codes "bob@x.io") (codes "Passw0rd!") moved_world).1)

two_applied :
    (EmailChange.apply token two_world).0
    ≡ ok (some (operation_of email_change (email_data (some (codes "Ann@Y.io")))))
unfolding EmailChange.apply EmailChange.checkout_email count_users in_transaction Operations.apply
    Operations.close Users.update find_operation find_user update_user remove_operation
    start_transaction commit_transaction text_eq same_kind drop_all delete Cache.del
two_applied = refl

capital_letters : sample.lower (codes "Ann@Y.io") ≢ codes "Ann@Y.io"
capital_letters e = ground (arith, e)

email_change-locked_example :
    (row : UserRow) × MaySignIn (codes "bob@x.io") (codes "Passw0rd!") moved_world row
    × (row.id ≢ 1)
email_change-locked_example =
    email_change-locked jwt_config token (codes "Ann@Y.io") (codes "bob@x.io") (codes "Passw0rd!")
      (operation_of email_change (email_data (some (codes "Ann@Y.io"))))
      (create_tokens jwt_config (new_key 2 moved_world) moved_world.now) two_world
      (Auth.sign_in jwt_config (codes "bob@x.io") (codes "Passw0rd!") moved_world).1 two_applied
      refl capital_letters bob_tokens
