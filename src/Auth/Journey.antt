-- ===== src/Auth/Journey.antt =====
-- From a sign-up over its confirmation to a sign-in, at `signUp`, `signUpConfirm` and `signIn` of
-- apps/auth/src/app/routes/v1/auth/auth.service.ts.
use trash.Prelude.{
  ℕ, ◌≡◌, refl, sym, ap, subst, ◌∙◌, true, false, Option, none, some, List, [], ◌∷◌, ◌++◌, arith,
  truthy, ==_refl, ltb,
}
use trash.Entity.{OperationRow, UserRow, sign_up}
use trash.Runtime.{Runtime}
use trash.World.{put_user, put_operation, Result, ok, err, Db, World, apply_writes}
use trash.Action.{continue}
use trash.Users.{EmailAuthCreateData}
use trash.Sessions.{JwtConfig, create_tokens}
use trash.Sessions.Laws.{new_key}
use trash.Operations.{of_token, of_user, add_hours}
use trash.Operations.Applied.{deletion, updated}
use trash.Operations.OneEach.{Stored}
use trash.Operations.Spent.{DistinctTokens}
use trash.Operations.SignUp
use trash.Operations.Changes.{sign_up-Applied}
use trash.Notifications.{Service}
use trash.Auth
use trash.Auth.Once.{calm}
use trash.Auth.SignIn.{MaySignIn, sign_in_complete}
use trash.Auth.Making.{AllQuiet, signed_up_row}
use trash.Auth.Stored.{Registered, sign_up-Registered}
use trash.Invariant.{StoredUser, Idle}
use trash.Invariant.Tables.{users_replaced}
use trash.Invariant.Requests.{Registered-Idle, sign_up_apply-Keeps}
use trash.Auth.Confirmable.{
  sign_up_apply-runs, token-finds, id-finds, no-clash, email-finds, compares,
}

module _ ⦃rt : Runtime⦄ where
  same_operation : (r s : OperationRow) → some r ≡ some s → r ≡ s
  same_operation r s e = cc

  same_row : (r s : UserRow) → some r ≡ some s → r ≡ s
  same_row r s e = cc

  -- What `signUp` has stored.
  module _ (services : List Service) (quiet : AllQuiet services) (d : EmailAuthCreateData)
      (w w' : World) (idle : Idle w) (registers : Auth.sign_up services d w ≡ (ok tt, w')) where
    abbrev entry : Registered d w w'
    entry = sign_up-Registered services quiet d w w' registers

    after-Idle : Idle w'
    after-Idle = Registered-Idle d w w' entry idle

    row-Stored : StoredUser (signed_up_row d w) w'.committed.users
    row-Stored =
        subst (λ (db : Db). StoredUser (signed_up_row d w) db.users) (sym entry.done)
          (stored_user (rt.operations.find (of_user w.user_seq sign_up) w.committed.operations))
      where
        stored_user :
            (p : Option OperationRow)
            → StoredUser
                (signed_up_row d w)
                (apply_writes
                  (put_user (signed_up_row d w)
                    ∷ (deletion p ++ put_operation entry.operation ∷ []))
                  w.committed).users
        stored_user none =
            ground (arith, rt.users.get-put w.user_seq (signed_up_row d w) w.committed.users)
        stored_user (some o) =
            ground (arith, rt.users.get-put w.user_seq (signed_up_row d w) w.committed.users)

    operation-Stored : Stored entry.operation w'.committed
    operation-Stored =
        subst (Stored entry.operation) (sym entry.done) (
          stored_operation (rt.operations.find (of_user w.user_seq sign_up) w.committed.operations))
      where
        stored_operation :
            (p : Option OperationRow)
            → Stored entry.operation (
                apply_writes
                  (put_user (signed_up_row d w)
                    ∷ (deletion p ++ put_operation entry.operation ∷ []))
                  w.committed)
        stored_operation none =
            rt.operations.get-put entry.operation.id entry.operation w.committed.operations
            ∙ rw (==_refl entry.operation.id) refl
        stored_operation (some o) =
            rt.operations.get-put entry.operation.id entry.operation
              (rt.operations.delete o.id w.committed.operations)
            ∙ rw (==_refl entry.operation.id) refl

    -- The operation that is there for the new user is the one that `signUp` made.
    open-ttl :
        (operation : OperationRow)
        → Stored operation w'.committed
        → operation.user_id ≡ w.user_seq
        → operation.kind ≡ sign_up
        → operation.ttl ≡ add_hours 72 w.now
    open-ttl operation there own kind =
        let same =
          after-Idle.consistent.operations.one operation entry.operation there operation-Stored
            (own ∙ sym entry.user_id) (kind ∙ sym entry.kind) in
        let is = same_operation operation entry.operation (
          sym there
          ∙ ap (λ k. rt.operations.get k w'.committed.operations) same
          ∙ operation-Stored) in
        ap (λ (o : OperationRow). o.ttl) is ∙ entry.ttl

    module _ (operation : OperationRow) (t : ℕ) (there : Stored operation w'.committed)
        (distinct : DistinctTokens w'.committed) (own : operation.user_id ≡ w.user_seq)
        (kind : operation.kind ≡ sign_up) (in_time : ltb operation.ttl t ≡ false) where
      applies : (SignUp.apply operation.token (calm t w')).0 ≡ ok (some operation)
      applies =
          let row = signed_up_row d w in
          let users = after-Idle.consistent.users in
          sign_up_apply-runs operation.token operation row (calm t w') refl
            (subst
              (λ k.
                rt.operations.find (of_token operation.token k) w'.committed.operations
                ≡ some operation)
              kind (token-finds operation w'.committed there distinct))
            in_time (rw own (id-finds row w'.committed.users row-Stored))
            (no-clash row w'.committed.users row-Stored users) row-Stored

      -- The state after the confirmation.
      abbrev confirmed_world : World
      confirmed_world = (SignUp.apply operation.token (calm t w')).1

      confirmed-Idle : Idle confirmed_world
      confirmed-Idle =
          (sign_up_apply-Keeps operation.token).at (calm t w')
            (record { consistent = after-Idle.consistent; closed = after-Idle.closed })

      abbrev confirmed_row : UserRow
      confirmed_row = record (signed_up_row d w) { email_verified = true; updated_at = t }

      confirmed-Stored : StoredUser confirmed_row confirmed_world.committed.users
      confirmed-Stored =
          let p = sign_up-Applied operation.token operation (calm t w') applies in
          let same : p.row ≡ signed_up_row d w = same_row p.row (signed_up_row d w) (
            sym p.stored
            ∙ ap (λ k. rt.users.get k w'.committed.users) (p.own ∙ own)
            ∙ row-Stored) in
          let users : confirmed_world.committed.users
              ≡ rt.users.put (updated SignUp.verified (calm t w') p.row) w'.committed.users =
            ap (λ (db : Db). db.users) p.done ∙ users_replaced _ _ w'.committed in
          subst (λ u. StoredUser confirmed_row u) (sym users)
            (subst
              (λ r.
                StoredUser confirmed_row
                  (rt.users.put (updated SignUp.verified (calm t w') r) w'.committed.users))
              (sym same)
              (rt.users.get-put confirmed_row.id confirmed_row w'.committed.users
                ∙ rw (==_refl w.user_seq) refl))

      signs_in :
          truthy (some d.password) ≡ true
          → MaySignIn d.email d.password confirmed_world confirmed_row
      signs_in given = record {
        account =
            email-finds confirmed_row confirmed_world.committed.users confirmed-Stored
              confirmed-Idle.consistent.users;
        right = compares d.password (rt.salt w.entropy) confirmed_row (rw given refl);
        verified = refl;
      }

  confirm-applied :
      (operation : OperationRow) (r : Result (Option OperationRow) × World)
      → r.0 ≡ ok (some operation)
      → ((continue r Auth.confirmed).0 ≡ ok tt) × ((continue r Auth.confirmed).1 ≡ r.1)
  confirm-applied operation (ok (some a), v) e = (refl, refl)
  confirm-applied operation (ok none, v) e = absurd (cc)
  confirm-applied operation (err x, v) e = absurd (cc)

  -- A user who has signed up, from a consistent database with no transaction open and with a
  -- password that is not empty, can confirm it and sign in: where no two operations of a kind have
  -- the same token, the operation to sign up that is there for the new user is confirmed by its
  -- token at any time in the next 72 hours at which no call fails, and after that, whenever no call
  -- fails, the address and the password of the sign-up get tokens of a new session of that user.
  -- Calls may fail during the sign-up, and the notification services may do anything but touch the
  -- database.
  pub sign_in-sign_up :
      (services : List Service) (d : EmailAuthCreateData) (config : JwtConfig)
      (operation : OperationRow) (t u : ℕ) (w w' : World)
      → AllQuiet services
      → Idle w
      → truthy (some d.password) ≡ true
      → Auth.sign_up services d w ≡ (ok tt, w')
      → DistinctTokens w'.committed
      → Stored operation w'.committed
      → operation.user_id ≡ w.user_seq
      → operation.kind ≡ sign_up
      → ltb (add_hours 72 w.now) t ≡ false
      → ((Auth.sign_up_confirm operation.token (calm t w')).0 ≡ ok tt)
        × ((Auth.sign_in config d.email d.password
              (calm u (Auth.sign_up_confirm operation.token (calm t w')).1)).0
            ≡ ok (
                create_tokens config
                  (new_key w.user_seq (calm u (Auth.sign_up_confirm operation.token (calm t w')).1))
                  u))
  unfolding Auth.sign_up_confirm
  sign_in-sign_up services d config operation t u w w' quiet idle given registers distinct there own
        kind soon =
      let ttl = open-ttl services quiet d w w' idle registers operation there own kind in
      let in_time : ltb operation.ttl t ≡ false = rw ttl soon in
      let runs =
        applies services quiet d w w' idle registers operation t there distinct own kind in_time in
      let m =
        signs_in services quiet d w w' idle registers operation t there distinct own kind in_time
          given in
      let (confirms, same) =
        confirm-applied operation (SignUp.apply operation.token (calm t w')) runs in
      let v = calm u (SignUp.apply operation.token (calm t w')).1 in
      (
        confirms,
        rw same (
            sign_in_complete config d.email d.password _ v refl
              (record { account = m.account; right = m.right; verified = m.verified })),
      )
