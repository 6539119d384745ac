-- ===== src/Auth/SignIn.antt =====
-- `signIn` of apps/auth/src/app/routes/v1/auth/auth.service.ts: to whom it returns tokens.
use trash.Prelude.{ℕ, ◌≡◌, inl, inr, true, some, [], Text, arith, Option-cases}
use trash.Entity.{UserRow, select_all, load_user}
use trash.Runtime.{Runtime}
use trash.World.{ok, World}
use trash.Action.{call}
use trash.Database.Laws.{find_user-cases, find_user-runs}
use trash.Users
use trash.Users.{has_email}
use trash.Cache
use trash.Sessions
use trash.Sessions.{JwtConfig, JwtResponse, create_tokens}
use trash.Sessions.Laws.{new_key}
use trash.Sessions.Guards.{create-runs}
use trash.Auth

module _ ⦃rt : Runtime⦄ where
  -- The account of that address, whatever the case of its letters, with that password.
  pub record MaySignIn (email password : Text) (w : World) (row : UserRow) : Type 0 where
    pub account : rt.users.find (has_email (rt.lower email)) w.committed.users ≡ some row
    pub right : Auth.password_compare (load_user select_all row) password ≡ true
    pub verified : row.email_verified ≡ true

  create-tokens :
      (config : JwtConfig) (id : ℕ) (tokens : JwtResponse) (w w' : World)
      → Sessions.create config id w ≡ (ok tokens, w')
      → tokens ≡ create_tokens config (new_key id w) w.now
  unfolding Sessions.create Sessions.set Cache.set call
  create-tokens config id tokens w w' e = ground arith

  admit_sound :
      (config : JwtConfig) (password : Text) (row : UserRow) (tokens : JwtResponse) (w w' : World)
      → Auth.admit config password (some (load_user select_all row)) w ≡ (ok tokens, w')
      → (Auth.password_compare (load_user select_all row) password ≡ true)
        × (row.email_verified ≡ true)
        × (Sessions.create config row.id w ≡ (ok tokens, w'))
  admit_sound config password row tokens w w' e = (ground arith, ground arith, ground arith)

  -- Whatever calls fail, if `signIn` returns tokens, the account that is found by the address, in
  -- small letters, is verified and has the password, and the tokens are those of a session with a
  -- new key for it.
  pub sign_in_sound :
      (config : JwtConfig) (email password : Text) (tokens : JwtResponse) (w w' : World)
      → Auth.sign_in config email password w ≡ (ok tokens, w')
      → (row : UserRow) × MaySignIn email password w row
        × (tokens ≡ create_tokens config (new_key row.id w) w.now)
  unfolding Auth.sign_in Users.auth_data
  sign_in_sound config email password tokens w w' e =
      let test = has_email (rt.lower email) in
      elim (find_user-cases test select_all w) [
        | inl (gs, fails) ↦ let stopped = rw fails at e in cc stopped
        | inr (gs, finds) ↦ elim (Option-cases (rt.users.find test w.committed.users)) [
          | inl missing ↦ let refused = rw (finds, missing) at e in cc refused
          | inr (row, found) ↦
              let admitted = rw (finds, found) at e in
              let v = record w { faults = gs } in
              let (right, verified, made) = admit_sound config password row tokens v w' admitted in
              (
                row,
                record { account = found; right = right; verified = verified },
                create-tokens config row.id tokens v w' made,
              )
        ]
      ]

  -- With no failing call, if the account that is found by the address, in small letters, is
  -- verified and has the password, `signIn` returns the tokens of a session with a new key for it.
  pub sign_in_complete :
      (config : JwtConfig) (email password : Text) (row : UserRow) (w : World)
      → w.faults ≡ []
      → MaySignIn email password w row
      → (Auth.sign_in config email password w).0
        ≡ ok (create_tokens config (new_key row.id w) w.now)
  unfolding Auth.sign_in Users.auth_data
  sign_in_complete config email password row w h m =
      rw
        (find_user-runs (has_email (rt.lower email)) select_all w h, m.account, m.right, m.verified)
        (create-runs config row.id w h)
