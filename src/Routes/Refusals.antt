-- ===== src/Routes/Refusals.antt =====
-- What a refused sign-in gives away.
use trash.Prelude.{
  ◌≡◌, refl, Bool, true, false, Option, none, some, List, [], Text, codes, inl, inr, Option-cases,
  Bool-cases,
}
use trash.Entity.{UserRow, select_all, load_user}
use trash.Exceptions.{forbidden_exception}
use trash.Runtime.{Runtime}
use trash.World.{World}
use trash.Database.Laws.{find_user-runs}
use trash.Users
use trash.Users.{has_email}
use trash.Sessions.{JwtConfig}
use trash.Notifications.{Service}
use trash.Filter.{said, catch_exception}
use trash.Auth
use trash.Routes.{sign_in, refused, handle, control}

module _ ⦃rt : Runtime⦄ where
  -- No account has the address, or its password is another.
  abbrev pub mismatch : Text → Option UserRow → Bool
  mismatch password none = true
  mismatch password (some row) = elim (Auth.password_compare (load_user select_all row) password) [
    | true ↦ false
    | false ↦ true
  ]

  -- With no failing call, a sign-in with an unknown address and one with a wrong password get the
  -- same reply: 403 and one and the same text.
  pub handle-mismatch :
      (config : JwtConfig) (services : List Service) (email password : Text) (w : World)
      → w.faults ≡ []
      → mismatch password (rt.users.find (has_email (rt.lower email)) w.committed.users) ≡ true
      → (handle config services (sign_in email password) w).0
        ≡ refused (record {
          status_code = 403;
          timestamp = w.now;
          message = said (codes "Errors.WrongPassword");
          retry_after = none;
        })
  unfolding handle control Auth.sign_in Users.auth_data catch_exception forbidden_exception
  handle-mismatch config services email password w h m =
      let runs = find_user-runs (has_email (rt.lower email)) select_all w h in
      elim (Option-cases (rt.users.find (has_email (rt.lower email)) w.committed.users)) [
        | inl missing ↦ rw (runs, missing) refl
        | inr (row, found) ↦
            elim (Bool-cases (Auth.password_compare (load_user select_all row) password)) [
              | inl right ↦ let impossible = rw (found, right) at m in cc impossible
              | inr wrong ↦ rw (runs, found, wrong) refl
            ]
      ]
