-- ===== src/Accounts.antt =====
-- What the service promises of accounts, and no more: an account has a password and may be
-- verified, and there is at most one for an address. It is the abstract view of the table `users`
-- that apps/auth/src/app keeps, and says which request may change what.
pub mod View
pub mod Untouched
pub mod Growth
pub mod Numbers
pub mod Requests
pub mod Refines
pub mod Fresh
use mathlib.Core.Option
use trash.Prelude.{ℕ, ◌≡◌, Bool, true, false, Option, none, some, Text, text_eq, if◌then◌else◌}
use trash.Entity.{UserRow}
use trash.Runtime.{Runtime}
use trash.World.{Db}
use trash.Users
use trash.Users.{has_email}
use trash.Operations.Applied.{encrypted}
use trash.Routes.{Request, sign_up, sign_up_confirm, password_recovery_confirm}

pub record Account : Type 0 where
  pub password : Option Text
  pub verified : Bool

-- By address.
abbrev pub Accounts : Type 0
Accounts = Text → Option Account

abbrev pub set_at : Text → Account → Accounts → Accounts
set_at e a v x = if text_eq e x then some a else v x

abbrev pub account : UserRow → Account
account r = record { password = r.password; verified = r.email_verified }

module _ ⦃rt : Runtime⦄ where
  -- The accounts in a database.
  abbrev pub view : Db → Accounts
  view db x = Option.map account (rt.users.find (has_email x) db.users)

  -- What a request may do to the accounts: nothing, or one of three changes, each for one request.
  -- `salt` is the number of the salt of a new password's hash.
  pub data Permitted : Request → Accounts → Accounts → Type 0 where
    same : (r : Request) {v v' : Accounts} → v' ≡ v → Permitted r v v'
    register :
        (d : Users.EmailAuthCreateData) (salt : ℕ) {v v' : Accounts}
        → v (rt.lower d.email) ≡ none
        → v'
          ≡ set_at
              (rt.lower d.email)
              (record { password = encrypted salt (some d.password); verified = false })
              v
        → Permitted (sign_up d) v v'
    verify :
        (token e : Text) (a : Account) {v v' : Accounts}
        → v e ≡ some a
        → v' ≡ set_at e (record a { verified = true }) v
        → Permitted (sign_up_confirm token) v v'
    reset :
        (token password e : Text) (salt : ℕ) (a : Account) {v v' : Accounts}
        → v e ≡ some a
        → v' ≡ set_at e (record a { password = encrypted salt (some password) }) v
        → Permitted (password_recovery_confirm token password) v v'
