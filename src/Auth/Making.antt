-- ===== src/Auth/Making.antt =====
-- What `UsersProcessor.create` and `create` of users_operations have added to the transaction of a
-- sign-up when they return.
use trash.Prelude.{
  ℕ, ◌≡◌, refl, ap, sym, ◌∙◌, false, Option, some, List, [], ◌∷◌, ◌++◌, Text, arith,
}
use mathlib.Core.List.{append-nil}
use trash.Entity.{OperationRow, UserRow, User, null}
use trash.Runtime.{Runtime}
use trash.World.{Write, put_user, put_operation, Result, ok, err, World}
use trash.Action.{catch_with}
use trash.Database.{present, before_insert, insert_user, find_operation, remove_operation}
use trash.Users
use trash.Users.{EmailAuthCreateData, has_email, recover_own}
use trash.Operations
use trash.Operations.{Options, of_user, add_hours}
use trash.Operations.Applied.{deletion, encrypted}
use trash.Operations.Effects.{continue-ok}
use trash.Operations.Unique.{created, SameCounters, insert-ok}
use trash.Operations.SignUp
use trash.Operations.Target.{by_user}
use trash.Notifications.{Service, Event, Payload}
use trash.Notifications.Laws.{Quiet, after_all}

module _ ⦃rt : Runtime⦄ where
  abbrev pub AllQuiet : List Service → Type 0
  AllQuiet [] = Unit {0}
  AllQuiet (service ∷ services) = Quiet service × AllQuiet services

  pub after_all-committed :
      (services : List Service) (e : Event) (p : Payload) (w : World)
      → AllQuiet services
      → (after_all services e p w).committed ≡ w.committed
  after_all-committed [] e p w q = refl
  after_all-committed (s ∷ ss) e p w q =
      after_all-committed ss e p (s e p w).1 q.1 ∙ q.0.committed e p w

  pub after_all-pending :
      (services : List Service) (e : Event) (p : Payload) (w : World)
      → AllQuiet services
      → (after_all services e p w).pending ≡ w.pending
  after_all-pending [] e p w q = refl
  after_all-pending (s ∷ ss) e p w q = after_all-pending ss e p (s e p w).1 q.1 ∙ q.0.pending e p w

  -- The row of a user who has just signed up.
  abbrev pub signed_up_row : EmailAuthCreateData → World → UserRow
  signed_up_row d w = record {
    id = w.user_seq;
    email = rt.lower d.email;
    password = encrypted w.entropy (some d.password);
    email_verified = false;
    created_at = w.now;
    updated_at = w.now;
  }

  before_insert-lower : (s : Text) → before_insert (rt.lower s) ≡ rt.lower s
  before_insert-lower s = go (rt.lower s) (rt.lower_idem s)
    where
      go : (t : Text) → rt.lower t ≡ t → before_insert t ≡ t
      go [] h = refl
      go (c ∷ t) h = h

  pub record UserMade (d : EmailAuthCreateData) (user : User) (v u : World) : Type 0 where
    pub id : user.id ≡ v.user_seq
    pub unverified : user.email_verified ≡ some false
    pub pending : u.pending ≡ some (put_user (signed_up_row d v) ∷ [])
    pub committed : u.committed ≡ v.committed
    pub seq : u.operation_seq ≡ v.operation_seq
    pub now : u.now ≡ v.now

  pub create_user-UserMade :
      (d : EmailAuthCreateData) (user : User) (v u : World)
      → Users.create d present v ≡ (ok (some user), u)
      → v.pending ≡ some []
      → UserMade d user v u
  unfolding Users.create insert_user
  create_user-UserMade d user v u e h =
      let lowered = before_insert-lower d.email in
      record {
        id = ground arith;
        unverified = ground arith;
        pending = ground arith;
        committed = ground arith;
        seq = ground arith;
        now = ground arith;
      }

  close-ok :
      (o : Options) (user : ℕ) (ws : List Write) (v u : World)
      → Operations.close o user present v ≡ (ok tt, u)
      → v.pending ≡ some ws
      → (u.pending
          ≡ some (ws ++ deletion (rt.operations.find (of_user user o.kind) v.committed.operations)))
        × SameCounters v u
  unfolding Operations.close find_operation remove_operation
  close-ok o user ws v u e h = let same = append-nil ws in (ground arith, ground arith)

  -- What a `create` within a transaction has added to it.
  pub record OperationMade (o : Options) (user : ℕ) (operation : OperationRow) (ws : List Write)
      (v u : World) : Type 0 where
    pub id : operation.id ≡ v.operation_seq
    pub user_id : operation.user_id ≡ user
    pub kind : operation.kind ≡ o.kind
    pub ttl : operation.ttl ≡ add_hours o.ttl_in_hours v.now
    pub content : operation.content ≡ null
    pub pending :
        u.pending
        ≡ some (
            (ws ++ deletion (rt.operations.find (of_user user o.kind) v.committed.operations))
            ++ put_operation operation ∷ [])
    pub committed : u.committed ≡ v.committed

  renewed_in :
      (r : Result (Option OperationRow) × World) (operation : OperationRow) (u : World)
      → catch_with r (recover_own present) ≡ (ok (some operation), u)
      → r ≡ (ok (some operation), u)
  renewed_in (ok a, w) operation u e = e
  renewed_in (err x, w) operation u e = absurd (cc)

  pub create-OperationMade :
      (o : Options) (user : ℕ) (operation : OperationRow) (ws : List Write) (v u : World)
      → Operations.create o user null present v ≡ (ok (some operation), u)
      → v.pending ≡ some ws
      → OperationMade o user operation ws v u
  unfolding Operations.create
  create-OperationMade o user operation ws v u e h =
      let inner = renewed_in _ operation u e in
      let (_, v1, closes, rest) =
        continue-ok (Operations.close o user present v) _ (some operation) u inner in
      let (made, v2, makes, ends) =
        continue-ok (Operations.create_user_operation o user null present v1) _ (some operation) u
          rest in
      let ds = deletion (rt.operations.find (of_user user o.kind) v.committed.operations) in
      let (pending, counters) = close-ok o user ws v v1 closes h in
      let (is_new, pending', kept) = insert-ok o user null made (ws ++ ds) v1 v2 makes pending in
      let same : made ≡ operation = cc ends in
      let last : v2 ≡ u = cc ends in
      let is : operation ≡ created o user null v1 = sym same ∙ is_new in
      record {
        id = ap (λ (x : OperationRow). x.id) is ∙ counters.seq;
        user_id = ap (λ (x : OperationRow). x.user_id) is;
        kind = ap (λ (x : OperationRow). x.kind) is;
        ttl = ap (λ (x : OperationRow). x.ttl) is ∙ ap (add_hours o.ttl_in_hours) counters.now;
        content = ap (λ (x : OperationRow). x.content) is;
        pending =
            ap (λ (x : World). x.pending) (sym last)
            ∙ pending'
            ∙ ap (λ (x : OperationRow). some ((ws ++ ds) ++ put_operation x ∷ [])) same;
        committed = ap (λ (x : World). x.committed) (sym last) ∙ kept ∙ counters.committed;
      }

  pub sign_up_create :
      (user : User) (v : World)
      → user.email_verified ≡ some false
      → SignUp.create (by_user user) present v
        ≡ Operations.create SignUp.options user.id null present v
  unfolding SignUp.create
  sign_up_create user v h = rw h
