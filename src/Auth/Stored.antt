-- ===== src/Auth/Stored.antt =====
-- `signUp` of apps/auth/src/app/routes/v1/auth/auth.service.ts when it returns.
use trash.Prelude.{
  ℕ, ◌≡◌, refl, ap, sym, ◌∙◌, inl, inr, Bool, Option, none, some, List, [], ◌∷◌, ◌++◌, arith,
  Option-cases,
}
use trash.Entity.{OperationRow, UserRow, User, null, sign_up, select_all}
use trash.Runtime.{Runtime}
use trash.World.{Write, put_user, put_operation, Result, ok, err, Db, World, apply_writes}
use trash.Action.{catch_with, ◌>>◌, raise, commit_transaction, rollback_transaction}
use trash.Database.{present}
use trash.Database.Laws.{find_user-cases}
use trash.Users
use trash.Users.{EmailAuthCreateData, has_email, recover_own}
use trash.Operations.{of_user, add_hours}
use trash.Operations.Applied.{deletion}
use trash.Operations.Effects.{continue-ok}
use trash.Operations.Unique.{commit-ok}
use trash.Operations.Atomic.{started, start-cases}
use trash.Operations.SignUp
use trash.Operations.Target.{by_user}
use trash.Notifications.{Service, Payload, signed_up}
use trash.Notifications.Laws.{broadcast_total}
use trash.Auth
use trash.Auth.Atomic.{notify, store, register, attempt}
use trash.Auth.Making.{
  AllQuiet, after_all-committed, after_all-pending, signed_up_row, create_user-UserMade,
  create-OperationMade, sign_up_create,
}

module _ ⦃rt : Runtime⦄ where
  -- What a sign-up has added to the database, all of it in one commit: the user's row, and an open
  -- operation of that user in place of any other of its kind.
  pub record Registered (d : EmailAuthCreateData) (w w' : World) : Type 0 where
    pub is_new : rt.users.find (has_email (rt.lower d.email)) w.committed.users ≡ none
    pub operation : OperationRow
    pub id : operation.id ≡ w.operation_seq
    pub user_id : operation.user_id ≡ w.user_seq
    pub kind : operation.kind ≡ sign_up
    pub ttl : operation.ttl ≡ add_hours 72 w.now
    pub content : operation.content ≡ null
    pub done :
        w'.committed
        ≡ apply_writes
            (put_user (signed_up_row d w)
              ∷ (deletion (rt.operations.find (of_user w.user_seq sign_up) w.committed.operations)
                  ++ put_operation operation ∷ []))
            w.committed
    pub closed : w'.pending ≡ none

  module _ (services : List Service) (quiet : AllQuiet services) (d : EmailAuthCreateData) where
    notify-quiet :
        (user : User) (operation : OperationRow) (u u' : World)
        → notify services user operation u ≡ (ok tt, u')
        → (u'.committed ≡ u.committed) × (u'.pending ≡ u.pending)
    notify-quiet user operation u u' e = elim (Option-cases user.email) [
      | inl missing ↦ let bad = rw missing at e in absurd (cc bad)
      | inr (email, given) ↦
          let p : Payload = record { email = rt.lower email; token = operation.token } in
          let sent = broadcast_total services signed_up p u in
          let last = rw (given, sent) at e in
          (
            ap (λ (r : Result (Unit {0}) × World). r.1.committed) (sym last)
                ∙ after_all-committed services signed_up p u quiet,
            ap (λ (r : Result (Unit {0}) × World). r.1.pending) (sym last)
                ∙ after_all-pending services signed_up p u quiet,
          )
    ]

    stored-Registered :
        (w v u1 u2 w' : World) (user : User) (made : Option OperationRow)
        → v.pending ≡ some []
        → v.committed ≡ w.committed
        → rt.users.find (has_email (rt.lower d.email)) w.committed.users ≡ none
        → (v.user_seq ≡ w.user_seq)
        → (v.operation_seq ≡ w.operation_seq)
        → (v.now ≡ w.now)
        → (signed_up_row d v ≡ signed_up_row d w)
        → Users.create d present v ≡ (ok (some user), u1)
        → SignUp.create (by_user user) present u1 ≡ (ok made, u2)
        → store services user made u2 ≡ (ok tt, w')
        → Registered d w w'
    stored-Registered w v u1 u2 w' user none open_ same free seq oseq now row c m e = absurd (cc)
    stored-Registered w v u1 u2 w' user (some operation) open_ same free seq oseq now row c m e =
        let mu = create_user-UserMade d user v u1 c open_ in
        let o = SignUp.options in
        let (_, u3, commits, rest) = continue-ok (commit_transaction u2) _ tt w' e in
        let mo =
          create-OperationMade o user.id operation (put_user (signed_up_row d v) ∷ []) u1 u2
            (sym (sign_up_create user u1 mu.unverified) ∙ m) mu.pending in
        let (done, closed) = commit-ok _ u2 u3 commits mo.pending in
        let (kept, pending) = notify-quiet user operation u3 w' rest in
        let db = mo.committed ∙ mu.committed ∙ same in
        let own = mu.id ∙ seq in
        let gone =
          λ (id : ℕ) (t : Db). deletion (rt.operations.find (of_user id sign_up) t.operations) in
        let writes =
          λ (r : UserRow) (ds : List Write). put_user r ∷ (ds ++ put_operation operation ∷ []) in
        record {
          is_new = free;
          operation = operation;
          id = mo.id ∙ mu.seq ∙ oseq;
          user_id = mo.user_id ∙ own;
          kind = mo.kind;
          ttl = mo.ttl ∙ ap (add_hours 72) (mu.now ∙ now);
          content = mo.content;
          done =
              kept
              ∙ done
              ∙ ap (apply_writes (writes (signed_up_row d v) (gone user.id u1.committed))) db
              ∙ (λ i.
                  apply_writes (writes (row i) (gone (own i) ((mu.committed ∙ same) i)))
                    w.committed);
          closed = pending ∙ closed;
        }

    caught-ok :
        (r : Result (Unit {0}) × World) (w' : World)
        → catch_with r (λ x. rollback_transaction >> raise x) ≡ (ok tt, w')
        → r ≡ (ok tt, w')
    unfolding rollback_transaction
    caught-ok (ok tt, u) w' e = e
    caught-ok (err x, u) w' e = absurd (ground arith)

    body-Registered :
        (w w' : World) (fs : List Bool)
        → rt.users.find (has_email (rt.lower d.email)) w.committed.users ≡ none
        → Auth.sign_up_body services d (started w fs) ≡ (ok tt, w')
        → Registered d w w'
    body-Registered w w' fs free e =
        let v = started w fs in
        let (user, u1, c, rest) =
          continue-ok (Users.create d present v) (register services) tt w' e in
        elim (Option-cases user) [
          | inl missing ↦ let bad = rw missing at rest in absurd (cc bad)
          | inr (user', is) ↦
              let (made, u2, m, rest1) =
                continue-ok (SignUp.create (by_user user') present u1) (store services user') tt w'
                  (rw is at rest) in
              stored-Registered w v u1 u2 w' user' made refl refl free refl refl refl refl
                (rw is at c) m rest1
        ]

    attempt-Registered :
        (w w' : World)
        → rt.users.find (has_email (rt.lower d.email)) w.committed.users ≡ none
        → attempt services d w ≡ (ok tt, w')
        → Registered d w w'
    attempt-Registered w w' free e = elim (start-cases w) [
      | inl (fs, fails) ↦ let bad = rw fails at e in absurd (cc bad)
      | inr (fs, starts) ↦
          body-Registered w w' fs free
            (caught-ok (Auth.sign_up_body services d (started w fs)) w' (rw starts at e))
    ]

    -- If `signUp` returns, no user had the address, in small letters, and in one commit it has
    -- stored a user with it, not verified and with the password hashed (an empty one as it is), and
    -- an operation to sign up, open for 72 hours, in place of one that the look-up by user and kind
    -- found. The notification services may do anything but touch the database.
    pub sign_up-Registered :
        (w w' : World) → Auth.sign_up services d w ≡ (ok tt, w') → Registered d w w'
    unfolding Auth.sign_up Users.auth_data
    sign_up-Registered w w' e =
        let test = has_email (rt.lower d.email) in
        elim (find_user-cases test select_all w) [
          | inl (gs, fails) ↦ let bad = rw fails at e in absurd (cc bad)
          | inr (gs, finds) ↦ elim (Option-cases (rt.users.find test w.committed.users)) [
            | inl missing ↦
                let v = record w { faults = gs } in
                let r = attempt-Registered v w' missing (rw (finds, missing) at e) in
                record {
                  is_new = missing;
                  operation = r.operation;
                  id = r.id;
                  user_id = r.user_id;
                  kind = r.kind;
                  ttl = r.ttl;
                  content = r.content;
                  done = r.done;
                  closed = r.closed;
                }
            | inr (row, found) ↦ let bad = rw (finds, found) at e in absurd (cc bad)
          ]
        ]
