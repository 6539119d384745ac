-- ===== src/Tests/Operations.antt =====
-- The theorems on users_operations, at concrete states.
use trash.Prelude.{ℕ, Text, refl, some, codes, text_eq}
use trash.Entity.{
  OperationData, same_kind, sign_up, password_recovery, password_change, email_change, null,
  password_data, email_data,
}
use trash.Runtime.Sample.{sample}
use trash.Action.{start_transaction, commit_transaction}
use trash.Database.{absent, find_user, count_users, find_operation, update_user, remove_operation}
use trash.Users
use trash.Operations
use trash.Operations.{in_transaction}
use trash.Operations.SignUp
use trash.Operations.PasswordRecovery
use trash.Operations.Effects.{Applied}
use trash.Operations.Changes.{
  sign_up-Applied, password_recovery-Applied, password_change-Applied, email_change-Applied,
}
use trash.Operations.Unchanged.{Unchanged, operations-Unchanged}
use trash.Operations.PasswordChange
use trash.Operations.EmailChange
use trash.Cache
use trash.Sessions.{drop_all, delete}
use trash.Tests.Worlds.{
  token, operation_of, waiting_world, recovery_world, change_world, email_world,
}

operations-Unchanged_example :
    ((token : Text) → Unchanged waiting_world (SignUp.apply token waiting_world))
    × ((token password : Text)
        → Unchanged waiting_world (PasswordRecovery.apply token password waiting_world))
    × ((token : Text) → Unchanged waiting_world (PasswordChange.apply token waiting_world))
    × ((token : Text) → Unchanged waiting_world (EmailChange.apply token waiting_world))
    × ((o : Operations.Options) (user : ℕ) (content : OperationData)
        → Unchanged waiting_world (Operations.create o user content absent waiting_world))
operations-Unchanged_example = operations-Unchanged waiting_world refl

sign_up-Applied_example :
    Applied SignUp.options token SignUp.verified waiting_world
      (SignUp.apply token waiting_world).1
      (operation_of sign_up null)
unfolding SignUp.apply in_transaction Operations.apply Operations.close Users.update find_operation
    find_user update_user remove_operation start_transaction commit_transaction text_eq same_kind
sign_up-Applied_example = sign_up-Applied token (operation_of sign_up null) waiting_world refl

password_recovery-Applied_example :
    Applied PasswordRecovery.options token
      (PasswordRecovery.new_password (codes "N3w-pass"))
      recovery_world
      (PasswordRecovery.apply token (codes "N3w-pass") recovery_world).1
      (operation_of password_recovery null)
unfolding PasswordRecovery.apply in_transaction Operations.apply Operations.close Users.update
    find_operation find_user update_user remove_operation start_transaction commit_transaction
    text_eq same_kind drop_all delete Cache.del
password_recovery-Applied_example =
    password_recovery-Applied token (codes "N3w-pass") (operation_of password_recovery null)
      recovery_world refl

password_change-Applied_example :
    Applied PasswordChange.options token
      (PasswordChange.new_password (some (codes "N3w-pass")))
      change_world
      (PasswordChange.apply token change_world).1
      (operation_of password_change (password_data (some (codes "N3w-pass"))))
unfolding PasswordChange.apply in_transaction Operations.apply Operations.close Users.update
    find_operation find_user update_user remove_operation start_transaction commit_transaction
    text_eq same_kind drop_all delete Cache.del
password_change-Applied_example =
    password_change-Applied token
      (operation_of password_change (password_data (some (codes "N3w-pass")))) change_world refl

email_change-Applied_example :
    Applied EmailChange.options token
      (EmailChange.new_email (some (codes "Ann@Y.io")))
      email_world
      (EmailChange.apply token email_world).1
      (operation_of email_change (email_data (some (codes "Ann@Y.io"))))
unfolding EmailChange.apply EmailChange.checkout_email count_users in_transaction Operations.apply
    Operations.close Users.update find_operation find_user update_user remove_operation
    start_transaction commit_transaction text_eq same_kind drop_all delete Cache.del
email_change-Applied_example =
    email_change-Applied token (operation_of email_change (email_data (some (codes "Ann@Y.io"))))
      email_world refl
