-- ===== src/Tests/Auth.antt =====
-- The theorems on signing up and signing in, at concrete states.
use trash.Prelude.{◌≡◌, refl, none, codes, text_eq}
use trash.Entity.{UserRow, same_kind}
use trash.Exceptions.{bad_request_exception, user_already_exists}
use trash.Runtime.Sample.{sample}
use trash.World.{ok}
use trash.Action.{start_transaction, commit_transaction, rollback_transaction}
use trash.Database.{
  find_user, find_operation, insert_user, insert_operation, remove_operation, get_uuid,
}
use trash.Users
use trash.Operations
use trash.Operations.SignUp
use trash.Cache
use trash.Sessions
use trash.Sessions.{create_tokens}
use trash.Sessions.Laws.{new_key}
use trash.Broker
use trash.Notifications.{broadcast, email_service, message}
use trash.Notifications.Laws.{email_service-Quiet}
use trash.Auth
use trash.Auth.Atomic.{sign_up-failed}
use trash.Auth.Stored.{Registered, sign_up-Registered}
use trash.Auth.SignIn.{MaySignIn, sign_in_sound, sign_in_complete}
use trash.Filter.{said}
use trash.Routes
use trash.Routes.{refused}
use trash.Routes.Refusals.{handle-mismatch}
use trash.Tests.Worlds.{empty_world, ann_world, jwt_config, ann, ann_row, services}

sign_up-Registered_example : Registered ann empty_world (Auth.sign_up services ann empty_world).1
unfolding Auth.sign_up Users.auth_data Users.create SignUp.create Operations.create Operations.close
    Operations.create_user_operation find_user find_operation insert_user insert_operation
    remove_operation start_transaction commit_transaction rollback_transaction broadcast
    email_service message Broker.send text_eq same_kind
sign_up-Registered_example =
    sign_up-Registered services (email_service-Quiet (codes "x.io"), tt) ann empty_world
      (Auth.sign_up services ann empty_world).1 refl

-- The address is taken.
sign_up-failed_example :
    ((Auth.sign_up services ann ann_world).1.committed ≡ ann_world.committed)
    × ((Auth.sign_up services ann ann_world).1.pending ≡ none)
unfolding Auth.sign_up Users.auth_data find_user text_eq
sign_up-failed_example =
    sign_up-failed services ann (bad_request_exception user_already_exists) ann_world
      (Auth.sign_up services ann ann_world).1 refl refl

sign_in_sound_example :
    (row : UserRow) × MaySignIn (codes "ANN@x.io") (codes "Passw0rd!") ann_world row
    × (create_tokens jwt_config (new_key 1 ann_world) ann_world.now
        ≡ create_tokens jwt_config (new_key row.id ann_world) ann_world.now)
unfolding Auth.sign_in Auth.password_compare Users.auth_data find_user text_eq Sessions.create
    Sessions.set Cache.set get_uuid
sign_in_sound_example =
    sign_in_sound jwt_config (codes "ANN@x.io") (codes "Passw0rd!")
      (create_tokens jwt_config (new_key 1 ann_world) ann_world.now) ann_world
      (Auth.sign_in jwt_config (codes "ANN@x.io") (codes "Passw0rd!") ann_world).1 refl

ann-MaySignIn : MaySignIn (codes "ANN@x.io") (codes "Passw0rd!") ann_world ann_row
unfolding Auth.password_compare text_eq
ann-MaySignIn = record { account = refl; right = refl; verified = refl }

sign_in_complete_example :
    (Auth.sign_in jwt_config (codes "ANN@x.io") (codes "Passw0rd!") ann_world).0
    ≡ ok (create_tokens jwt_config (new_key 1 ann_world) ann_world.now)
sign_in_complete_example =
    sign_in_complete jwt_config (codes "ANN@x.io") (codes "Passw0rd!") ann_row ann_world refl
      ann-MaySignIn

handle-mismatch_example :
    (Routes.handle jwt_config services
      (Routes.Request.sign_in (codes "ann@x.io") (codes "guess"))
      ann_world).0
    ≡ refused (record {
      status_code = 403;
      timestamp = 1000000;
      message = said (codes "Errors.WrongPassword");
      retry_after = none;
    })
unfolding Auth.password_compare text_eq
handle-mismatch_example =
    handle-mismatch jwt_config services (codes "ann@x.io") (codes "guess") ann_world refl refl
