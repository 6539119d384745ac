-- ===== src/Operations/Effects.antt =====
-- What an `apply` of users_operations has done to the database when it returns an operation.
use trash.Prelude.{
  ℕ, ◌≡◌, refl, ap, sym, subst, ◌∙◌, Bool, false, Option, none, some, List, [], ◌∷◌, ◌++◌, Text,
  ltb,
}
use trash.Entity.{OperationRow, UserRow, UserUpdate}
use trash.Runtime.{Runtime}
use trash.World.{Write, put_user, Result, ok, err, World, Action, apply_writes}
use trash.Action.{◌>>=◌, ◌>>◌, pure, continue}
use trash.Database.{present}
use trash.Users
use trash.Sessions.{drop_all}
use trash.Operations
use trash.Operations.{Options, of_user, of_token, in_transaction}
use trash.Operations.Atomic.{apply_pending, started}
use trash.Operations.Applied.{SameView, deletion, updated, apply-some, update-ok, drop_all-ok}

module _ ⦃rt : Runtime⦄ where
  pub continue-ok {ℓ κ} :
      {A : Type ℓ} {B : Type κ} (r : Result A × World) (f : A → Action B) (b : B) (w' : World)
      → continue r f ≡ (ok b, w')
      → (a : A) × (w1 : World) × (r ≡ (ok a, w1)) × (f a w1 ≡ (ok b, w'))
  continue-ok (ok a, w1) f b w' e = (a, w1, refl, e)
  continue-ok (err x, w1) f b w' e = cc

  -- The update that follows the removal of the operation, and what may stand around it.
  pub record Updates (user_id : ℕ) (d : UserUpdate) (v v' : World) : Type 0 where
    pub before : World
    pub after : World
    pub same_before : SameView v before
    pub pending_before : before.pending ≡ v.pending
    pub runs : Users.update user_id d present before ≡ (ok tt, after)
    pub same_after : v'.committed ≡ after.committed
    pub pending_after : v'.pending ≡ after.pending

  pub Updates-refl :
      {user_id : ℕ} {d : UserUpdate} {v v' : World}
      → Users.update user_id d present v ≡ (ok tt, v')
      → Updates user_id d v v'
  Updates-refl {user_id} {d} {v} {v'} e = record {
    before = v;
    after = v';
    same_before = record { committed = refl; now = refl; entropy = refl };
    pending_before = refl;
    runs = e;
    same_after = refl;
    pending_after = refl;
  }

  pub returned :
      {r a : OperationRow} {u v : World}
      → ◌≡◌ {A = Result (Option OperationRow) × World} (ok (some r), u) (ok (some a), v)
      → (r ≡ a) × (u ≡ v)
  returned e = (cc, cc)

  -- An update, then `dropAll`, then the operation.
  pub update_and_drop :
      (d : UserUpdate) (r operation : OperationRow) (u v' : World)
      → (do Users.update r.user_id d present; drop_all r.user_id; pure (some r)) u
        ≡ (ok (some operation), v')
      → (r ≡ operation) × Updates operation.user_id d u v'
  update_and_drop d r operation u v' e =
      let (_, u1, runs, rest) = continue-ok (Users.update r.user_id d present u) _ _ v' e in
      let (_, u2, drops, ends) = continue-ok (drop_all r.user_id u1) _ _ v' rest in
      let (same, last) = returned ends in
      let (pending, view) = drop_all-ok u1 u2 r.user_id drops in
      (
        same,
        record {
          before = u;
          after = u1;
          same_before = record { committed = refl; now = refl; entropy = refl };
          pending_before = refl;
          runs =
              subst (λ (x : OperationRow). Users.update x.user_id d present u ≡ (ok tt, u1)) same
                runs;
          same_after = ap (λ (x : World). x.committed) (sym last) ∙ view.committed;
          pending_after = ap (λ (x : World). x.pending) (sym last) ∙ pending;
        },
      )

  -- The operation was there and open, and in one step it is removed and its user's row updated.
  pub record Applied (o : Options) (token : Text) (d : UserUpdate) (w w' : World)
      (operation : OperationRow) : Type 0 where
    pub found : rt.operations.find (of_token token o.kind) w.committed.operations ≡ some operation
    pub in_time : ltb operation.ttl w.now ≡ false
    pub row : UserRow
    pub own : row.id ≡ operation.user_id
    pub stored : rt.users.get row.id w.committed.users ≡ some row
    pub done :
        w'.committed
        ≡ apply_writes
            (deletion (rt.operations.find (of_user operation.user_id o.kind) w.committed.operations)
              ++ put_user (updated d w row) ∷ [])
            w.committed

  users_kept :
      (r : Option OperationRow) (w : World)
      → (apply_writes (deletion r) w.committed).users ≡ w.committed.users
  users_kept none w = refl
  users_kept (some r) w = refl

  -- A body of the form that the four `apply` have: remove the operation, then continue with it.
  abbrev pub body :
      Options
      → Text
      → (Option OperationRow → Action (Option OperationRow))
      → Action (Option OperationRow)
  body o token next = do operation ← Operations.apply o token present; next operation

  updated-same :
      (d : UserUpdate) (row : UserRow) (w v : World)
      → v.now ≡ w.now
      → v.entropy ≡ w.entropy
      → updated d v row ≡ updated d w row
  updated-same d row w v n e = rw (n, e)

  apply_pending-some :
      (v : World) (ws : List Write)
      → v.pending ≡ some ws
      → (apply_pending v).committed ≡ apply_writes ws v.committed
  apply_pending-some v ws h = rw (h, apply_pending)

  module _ (o : Options) (token : Text) (d : UserUpdate) (operation : OperationRow) (w : World)
      (fs : List Bool) where
    abbrev closed : Option OperationRow
    closed = rt.operations.find (of_user operation.user_id o.kind) w.committed.operations

    Updates-done :
        (v v' : World)
        → SameView (started w fs) v
        → v.pending ≡ some (deletion closed)
        → Updates operation.user_id d v v'
        → (row : UserRow) × (row.id ≡ operation.user_id)
          × (rt.users.get row.id w.committed.users ≡ some row)
          × ((apply_pending v').committed
              ≡ apply_writes (deletion closed ++ put_user (updated d w row) ∷ []) w.committed)
    Updates-done v v' view pending ups =
        let b = ups.before in
        let same = ups.same_before.committed ∙ view.committed in
        let kept =
          subst (λ db. (apply_writes (deletion closed) db).users ≡ db.users) (sym same)
            (users_kept closed w) in
        let (row, own, stored, writes, after) =
          update-ok b ups.after operation.user_id d (deletion closed) ups.runs
            (ups.pending_before ∙ pending) kept in
        let new =
          updated-same d row w b (ups.same_before.now ∙ view.now)
            (ups.same_before.entropy ∙ view.entropy) in
        let ws = deletion closed ++ put_user (updated d b row) ∷ [] in
        (
          row,
          own,
          subst (λ db. rt.users.get row.id db.users ≡ some row) same stored,
          apply_pending-some v' ws (ups.pending_after ∙ writes)
              ∙ ap (apply_writes ws) (ups.same_after ∙ after ∙ same)
              ∙ ap (λ (r : UserRow). apply_writes (deletion closed ++ put_user r ∷ []) w.committed)
                  new,
        )

    body-Applied :
        (next : Option OperationRow → Action (Option OperationRow)) (v' : World)
        → ((a : Option OperationRow) (u : World)
            → next a u ≡ (ok (some operation), v')
            → (a ≡ some operation) × Updates operation.user_id d u v')
        → body o token next (started w fs) ≡ (ok (some operation), v')
        → Applied o token d w (apply_pending v') operation
    body-Applied next v' inv e =
        let v = started w fs in
        let (a, v1, applies, rest) = continue-ok (Operations.apply o token present v) next _ v' e in
        let (is_it, ups) = inv a v1 rest in
        let applies_it =
          subst (λ x. Operations.apply o token present v ≡ (ok x, v1)) is_it applies in
        let (found, in_time, pending, view) = apply-some v v1 o token operation applies_it refl in
        let (row, own, stored, done) = Updates-done v1 v' view pending ups in
        record {
          found = found;
          in_time = in_time;
          row = row;
          own = own;
          stored = stored;
          done = done;
        }

    -- With the transaction around the body.
    pub in_transaction-Applied :
        (next : Option OperationRow → Action (Option OperationRow))
        → ((a : Option OperationRow) (u v' : World)
            → next a u ≡ (ok (some operation), v')
            → (a ≡ some operation) × Updates operation.user_id d u v')
        → (body o token next (started w fs)).0 ≡ ok (some operation)
        → (in_transaction (body o token next) w).1.committed
          ≡ (apply_pending (body o token next (started w fs)).1).committed
        → Applied o token d w (in_transaction (body o token next) w).1 operation
    in_transaction-Applied next inv e c =
        let r = body o token next (started w fs) in
        let whole : r ≡ (ok (some operation), r.1) = λ i. (e i, r.1) in
        let p = body-Applied next r.1 (λ a u. inv a u r.1) whole in
        record {
          found = p.found;
          in_time = p.in_time;
          row = p.row;
          own = p.own;
          stored = p.stored;
          done = c ∙ p.done;
        }
