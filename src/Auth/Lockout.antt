-- ===== src/Auth/Lockout.antt =====
-- An address with capital letters at `signIn` of
-- apps/auth/src/app/routes/v1/auth/auth.service.ts, after an email change has stored it as it was
-- given (users_operations.processor.email_change.ts).
use trash.Prelude.{
  ◌≡◌, ◌≢◌, refl, sym, ap, subst, ◌∙◌, Option, none, some, ◌∷◌, ◌++◌, [], Text, arith, text_eq_iff,
}
use trash.Entity.{OperationRow, UserRow}
use trash.Runtime.{Runtime}
use trash.World.{put_user, ok, Db, World, apply_writes}
use trash.Users.{has_email}
use trash.Sessions.{JwtConfig, JwtResponse}
use trash.Operations.Applied.{deletion, updated}
use trash.Operations.Changes.{stored_email, email_change-Applied}
use trash.Operations.EmailChange
use trash.Auth
use trash.Auth.SignIn.{MaySignIn, sign_in_sound}

module _ ⦃rt : Runtime⦄ where
  -- The account that a sign-in has found is stored with an address in small letters.
  found-lowered :
      (email password : Text) (w : World) (row : UserRow)
      → MaySignIn email password w row
      → rt.lower row.email ≡ row.email
  found-lowered email password w row m =
      let same =
        (text_eq_iff row.email (rt.lower email)).0
          (rt.users.find-matches (has_email (rt.lower email)) w.committed.users row m.account) in
      ap rt.lower same ∙ rt.lower_idem email ∙ sym same

  after-users :
      (a : UserRow) (p : Option OperationRow) (db : Db)
      → (apply_writes (deletion p ++ put_user a ∷ []) db).users ≡ rt.users.put a db.users
  after-users a none db = refl
  after-users a (some r) db = refl

  -- When an email change to an address that is not in small letters has been applied, no sign-in,
  -- with whatever address and password, is for its user any more: whoever gets tokens is another
  -- account.
  pub email_change-locked :
      (config : JwtConfig) (token new_address email password : Text) (operation : OperationRow)
      (tokens : JwtResponse) (w w' : World)
      → (EmailChange.apply token w).0 ≡ ok (some operation)
      → stored_email operation.content ≡ some new_address
      → rt.lower new_address ≢ new_address
      → Auth.sign_in config email password (EmailChange.apply token w).1 ≡ (ok tokens, w')
      → (row : UserRow) × MaySignIn email password (EmailChange.apply token w).1 row
        × (row.id ≢ operation.user_id)
  email_change-locked config token new_address email password operation tokens w w' e content
        capital signs =
      let v = (EmailChange.apply token w).1 in
      let p = email_change-Applied token operation w e in
      let (row, m, _) = sign_in_sound config email password tokens v w' signs in
      let changed = updated (EmailChange.new_email (stored_email operation.content)) w p.row in
      let users : v.committed.users ≡ rt.users.put changed w.committed.users =
        ap (λ (db : Db). db.users) p.done ∙ after-users changed _ w.committed in
      let here : rt.users.get row.id (rt.users.put changed w.committed.users) ≡ some row =
        subst (λ t. rt.users.get row.id t ≡ some row) users
          (rt.users.find-stored (has_email (rt.lower email)) v.committed.users row m.account) in
      (
        row,
        m,
        λ same. capital (
            lowered_address row changed new_address (written row changed (same ∙ sym p.own) here)
              (rw content refl) (found-lowered email password v row m)),
      )
    where
      written :
          (row changed : UserRow)
          → row.id ≡ changed.id
          → rt.users.get row.id (rt.users.put changed w.committed.users) ≡ some row
          → row ≡ changed
      written row changed same here =
          ground (arith, rt.users.get-put row.id changed w.committed.users, same, here)

      lowered_address :
          (row changed : UserRow) (a : Text)
          → row ≡ changed
          → changed.email ≡ a
          → rt.lower row.email ≡ row.email
          → rt.lower a ≡ a
      lowered_address row changed a r f l =
          let is = ap (λ (x : UserRow). x.email) r ∙ f in subst (λ t. rt.lower t ≡ t) is l
