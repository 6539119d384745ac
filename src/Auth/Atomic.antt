-- ===== src/Auth/Atomic.antt =====
-- `signUp` of apps/auth/src/app/routes/v1/auth/auth.service.ts when it ends in an error.
use trash.Prelude.{
  ◌≡◌, refl, ap, sym, subst, ◌∙◌, inl, inr, Option, none, some, List, Text, arith, Option-cases,
}
use trash.Entity.{OperationRow, User}
use trash.Exceptions.{Exception}
use trash.Runtime.{Runtime}
use trash.World.{Result, ok, err, World, Action}
use trash.Action.{
  ◌>>=◌, ◌>>◌, catch_with, raise, start_transaction, commit_transaction, rollback_transaction,
}
use trash.Action.Confined.{commit-err, continue-err, Within, Confined}
use trash.Database.{
  present, find_user, insert_user, find_operation, remove_operation, insert_operation,
}
use trash.Users
use trash.Users.{EmailAuthCreateData}
use trash.Operations
use trash.Operations.Atomic.{started, start-cases}
use trash.Operations.SignUp
use trash.Operations.Target.{by_user}
use trash.Notifications.{Service, broadcast, signed_up}
use trash.Notifications.Laws.{broadcast_total}
use trash.Auth

module _ ⦃rt : Runtime⦄ where
  create_user-Confined : (d : EmailAuthCreateData) → Confined (Users.create d present)
  unfolding Users.create insert_user
  create_user-Confined d = record { at = λ v w i. ground arith }

  create_user-email :
      (d : EmailAuthCreateData) (user : User) (v w : World)
      → Users.create d present v ≡ (ok (some user), w)
      → user.email ≡ none
      → ⊥
  unfolding Users.create insert_user
  create_user-email d user v w e h = ground arith

  create-Confined : (user : User) → Confined (SignUp.create (by_user user) present)
  unfolding SignUp.create Operations.create Operations.close Operations.create_user_operation
      find_operation remove_operation insert_operation
  create-Confined user = record { at = λ v w i. ground arith }

  -- The parts of the body, from its end.
  abbrev pub notify : List Service → User → OperationRow → Action (Unit {0})
  notify services user operation = do
    email ← Auth.required user.email
    broadcast services signed_up (record { email = rt.lower email; token = operation.token })

  abbrev pub store : List Service → User → Option OperationRow → Action (Unit {0})
  store services user made = do
    operation ← Auth.required made
    commit_transaction
    notify services user operation

  abbrev pub register : List Service → Option User → Action (Unit {0})
  register services created = do
    user ← Auth.required created
    made ← SignUp.create (by_user user) present
    store services user made

  notify-ok :
      (services : List Service) (user : User) (operation : OperationRow) (x : Exception)
      (u w : World)
      → (user.email ≡ none → ⊥)
      → notify services user operation u ≡ (err x, w)
      → ⊥
  notify-ok services user operation x u w h e = elim (Option-cases user.email) [
    | inl missing ↦ h missing
    | inr (email, given) ↦
        let sent =
          broadcast_total services signed_up
            (record { email = rt.lower email; token = operation.token }) u in
        let fails = rw (given, sent) at e in cc fails
  ]

  store-err :
      (services : List Service) (user : User) (made : Option OperationRow) (x : Exception)
      (v u w : World)
      → (user.email ≡ none → ⊥)
      → Within v u
      → store services user made u ≡ (err x, w)
      → Within v w
  store-err services user none x v u w h i e =
      subst (Within v) (ap (λ (r : Result (Unit {0}) × World). r.1) e) i
  store-err services user (some operation) x v u w h i e =
      elim (continue-err (commit_transaction u) (λ _. notify services user operation) x w e) [
        | inl fails ↦ commit-err x v u w i fails
        | inr (_, u1, _, rest) ↦ absurd (notify-ok services user operation x u1 w h rest)
      ]

  register-err :
      (services : List Service) (created : Option User) (x : Exception) (v u w : World)
      → ((user : User) → created ≡ some user → user.email ≡ none → ⊥)
      → Within v u
      → register services created u ≡ (err x, w)
      → Within v w
  register-err services none x v u w h i e =
      subst (Within v) (ap (λ (r : Result (Unit {0}) × World). r.1) e) i
  register-err services (some user) x v u w h i e =
      let made = SignUp.create (by_user user) present u in
      let inside = (create-Confined user).at v u i in
      elim (continue-err made (store services user) x w e) [
        | inl fails ↦
            subst (λ (r : Result (Option OperationRow) × World). Within v r.1) fails inside
        | inr (a, u1, done, rest) ↦
            store-err services user a x v u1 w (h user refl)
              (subst (λ (r : Result (Option OperationRow) × World). Within v r.1) done inside) rest
      ]

  -- The body raises only before its commit.
  body-err :
      (services : List Service) (payload : EmailAuthCreateData) (x : Exception) (v w : World)
      → Within v v
      → Auth.sign_up_body services payload v ≡ (err x, w)
      → Within v w
  body-err services payload x v w i e =
      let created = Users.create payload present v in
      let inside = (create_user-Confined payload).at v v i in
      elim (continue-err created (register services) x w e) [
        | inl fails ↦ subst (λ (r : Result (Option User) × World). Within v r.1) fails inside
        | inr (a, u, done, rest) ↦
            register-err services a x v u w
              (λ user is.
                create_user-email payload user v u (done ∙ ap (λ (o : Option User). (ok o, u)) is))
              (subst (λ (r : Result (Option User) × World). Within v r.1) done inside) rest
      ]

  rolled_back :
      (r : Result (Unit {0}) × World) (x : Exception) (v w : World)
      → ((y : Exception) (u : World) → r ≡ (err y, u) → Within v u)
      → catch_with r (λ y. rollback_transaction >> raise y) ≡ (err x, w)
      → (w.committed ≡ v.committed) × (w.pending ≡ none)
  unfolding rollback_transaction
  rolled_back (ok _, u) x v w h e = absurd (cc)
  rolled_back (err y, u) x v w h e = let i = h y u refl in (ground arith, ground arith)

  -- A look-up leaves the database as it is.
  pub record SameDb (w w' : World) : Type 0 where
    pub committed : w'.committed ≡ w.committed
    pub pending : w'.pending ≡ w.pending

  auth_data-SameDb : (email : Text) (w : World) → SameDb w (Users.auth_data email w).1
  unfolding Users.auth_data find_user
  auth_data-SameDb email w = ground arith

  abbrev pub attempt : List Service → EmailAuthCreateData → Action (Unit {0})
  attempt services payload = start_transaction >> λ u.
      catch_with (Auth.sign_up_body services payload u) (λ x. rollback_transaction >> raise x)

  attempt-failed :
      (services : List Service) (payload : EmailAuthCreateData) (x : Exception) (u w : World)
      → u.pending ≡ none
      → attempt services payload u ≡ (err x, w)
      → (w.committed ≡ u.committed) × (w.pending ≡ none)
  attempt-failed services payload x u w h e = elim (start-cases u) [
    | inl (fs, fails) ↦
        let stopped = rw fails at e in
        let last = ap (λ (r : Result (Unit {0}) × World). r.1) stopped in
        (ap (λ (v : World). v.committed) (sym last), ap (λ (v : World). v.pending) (sym last) ∙ h)
    | inr (fs, starts) ↦
        let v = started u fs in
        rolled_back (Auth.sign_up_body services payload v) x v w
          (λ y t. body-err services payload y v t (record { same = refl; opened = refl }))
          (rw starts at e)
  ]

  checked-failed :
      (services : List Service) (payload : EmailAuthCreateData) (found : Option User)
      (x : Exception) (u w : World)
      → u.pending ≡ none
      → (Auth.refuse_existing found >> attempt services payload) u ≡ (err x, w)
      → (w.committed ≡ u.committed) × (w.pending ≡ none)
  checked-failed services payload none x u w h e = attempt-failed services payload x u w h e
  checked-failed services payload (some user) x u w h e =
      let last = ap (λ (r : Result (Unit {0}) × World). r.1) e in
      (ap (λ (v : World). v.committed) (sym last), ap (λ (v : World). v.pending) (sym last) ∙ h)

  -- With no transaction open before, and whatever calls fail and whatever the notification services
  -- do: if `signUp` raises, what is committed has not changed, and no transaction is left open.
  pub sign_up-failed :
      (services : List Service) (payload : EmailAuthCreateData) (x : Exception) (w w' : World)
      → w.pending ≡ none
      → Auth.sign_up services payload w ≡ (err x, w')
      → (w'.committed ≡ w.committed) × (w'.pending ≡ none)
  unfolding Auth.sign_up
  sign_up-failed services payload x w w' h e =
      let look = Users.auth_data payload.email w in
      let same = auth_data-SameDb payload.email w in
      elim (continue-err look (λ found. Auth.refuse_existing found >> attempt services payload) x w'
        e) [
          | inl fails ↦
              let last = ap (λ (r : Result (Option User) × World). r.1) fails in
              (
                ap (λ (v : World). v.committed) (sym last) ∙ same.committed,
                ap (λ (v : World). v.pending) (sym last) ∙ same.pending ∙ h,
              )
          | inr (found, u, done, rest) ↦
              let last = ap (λ (r : Result (Option User) × World). r.1) done in
              let pending = ap (λ (v : World). v.pending) (sym last) ∙ same.pending ∙ h in
              let (c, p) = checked-failed services payload found x u w' pending rest in
              (c ∙ ap (λ (v : World). v.committed) (sym last) ∙ same.committed, p)
        ]
