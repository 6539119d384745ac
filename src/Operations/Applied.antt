-- ===== src/Operations/Applied.antt =====
-- What the parts of an `apply` have done when they return, whatever calls could have failed.
use trash.Prelude.{
  ℕ, ◌≡◌, ap, ◌∙◌, false, Option, none, some, List, [], ◌∷◌, ◌++◌, Text, arith, ltb, inl, inr,
  Option-cases, truthy, ==_iff, if◌then◌else◌,
}
use trash.Entity.{
  OperationRow, UserRow, User, UserUpdate, default_select, load_user, assign, or_else, from,
}
use trash.Runtime.{Runtime}
use trash.World.{Write, put_user, delete_operation, ok, World, apply_writes}
use trash.Action.{call}
use trash.Database.{present, find_operation, remove_operation, update_user, merge}
use trash.Database.Laws.{find_user-cases}
use trash.Users
use trash.Users.{has_id}
use trash.Cache
use trash.Sessions.{drop_all, delete}
use trash.Operations
use trash.Operations.{Options, of_user, of_token}

-- What `_close` writes.
abbrev pub deletion : Option OperationRow → List Write
deletion none = []
deletion (some r) = delete_operation r.id ∷ []

module _ ⦃rt : Runtime⦄ where
  -- `_encryptPassword` with the next salt.
  abbrev pub encrypted : ℕ → Option Text → Option Text
  encrypted n p = if truthy p then some (rt.hash (from p []) (rt.salt n)) else p

  -- A row after `UsersProcessor.update`.
  abbrev pub updated : UserUpdate → World → UserRow → UserRow
  updated d w r = record r {
    email = from d.email r.email;
    password = or_else (encrypted w.entropy d.password) r.password;
    email_verified = from d.email_verified r.email_verified;
    updated_at = w.now;
  }

module _ ⦃rt : Runtime⦄ (w w' : World) where
  -- The part of the state that an `apply` reads.
  pub record SameView : Type 0 where
    pub committed : w'.committed ≡ w.committed
    pub now : w'.now ≡ w.now
    pub entropy : w'.entropy ≡ w.entropy

  pub apply-some :
      (o : Options) (token : Text) (operation : OperationRow)
      → Operations.apply o token present w ≡ (ok (some operation), w')
      → w.pending ≡ some []
      → (rt.operations.find (of_token token o.kind) w.committed.operations ≡ some operation)
        × (ltb operation.ttl w.now ≡ false)
        × (w'.pending
            ≡ some (
                deletion
                  (rt.operations.find (of_user operation.user_id o.kind) w.committed.operations)))
        × SameView
  unfolding Operations.apply Operations.close find_operation remove_operation call
  apply-some o token operation e h = (ground arith, ground arith, ground arith, ground arith)

  pub apply-none :
      (o : Options) (token : Text)
      → Operations.apply o token present w ≡ (ok none, w')
      → (w'.pending ≡ w.pending) × SameView
  unfolding Operations.apply Operations.close find_operation remove_operation call
  apply-none o token e = (ground arith, ground arith)

  pub drop_all-ok :
      (user_id : ℕ) → drop_all user_id w ≡ (ok tt, w') → (w'.pending ≡ w.pending) × SameView
  unfolding drop_all delete Cache.del call
  drop_all-ok user_id e = (ground arith, ground arith)

  find_by_id :
      (id : ℕ) (r : UserRow)
      → rt.users.find (has_id id) w.committed.users ≡ some r
      → (r.id ≡ id) × (rt.users.get r.id w.committed.users ≡ some r)
  find_by_id id r e = (
    (==_iff r.id id).0 (rt.users.find-matches (has_id id) w.committed.users r e),
    rt.users.find-stored (has_id id) w.committed.users r e,
  )

  update_user-ok :
      (u : User) (row : UserRow) (ws : List Write)
      → update_user present u w ≡ (ok tt, w')
      → w.pending ≡ some ws
      → rt.users.get u.id (apply_writes ws w.committed).users ≡ some row
      → (w'.pending
          ≡ some (
              ws
              ++ put_user (merge (record u { password = encrypted w.entropy u.password }) w.now row)
                ∷ []))
        × (w'.committed ≡ w.committed)
  unfolding update_user
  update_user-ok u row ws e h k = (ground arith, ground arith)

module _ ⦃rt : Runtime⦄ (w : World) where
  abbrev assigned : UserUpdate → UserRow → User
  assigned d row =
      let u = assign (load_user default_select row) d in
      record u { password = encrypted w.entropy u.password }

  merge-assigned :
      (d : UserUpdate) (row : UserRow) → merge (assigned d row) w.now row ≡ updated d w row
  merge-assigned d row = ground arith

module _ ⦃rt : Runtime⦄ (w w' : World) where
  pub update-ok :
      (id : ℕ) (d : UserUpdate) (ws : List Write)
      → Users.update id d present w ≡ (ok tt, w')
      → w.pending ≡ some ws
      → (apply_writes ws w.committed).users ≡ w.committed.users
      → (row : UserRow) × (row.id ≡ id)
        × (rt.users.get row.id w.committed.users ≡ some row)
        × (w'.pending ≡ some (ws ++ put_user (updated d w row) ∷ []))
        × (w'.committed ≡ w.committed)
  unfolding Users.update
  update-ok id d ws e h k = elim (find_user-cases (has_id id) default_select w) [
    | inl (gs, bad) ↦ let fails = rw bad at e in cc fails
    | inr (gs, good) ↦ elim (Option-cases (rt.users.find (has_id id) w.committed.users)) [
      | inl missing ↦ let fails = rw (good, missing) at e in cc fails
      | inr (row, found) ↦
          let (own, stored) = find_by_id w w' id row found in
          let saved = rw (good, found) at e in
          let u = assign (load_user default_select row) d in
          let (p, v) =
            update_user-ok (record w { faults = gs }) w' u row ws saved h (rw k stored) in
          (
            row,
            own,
            stored,
            p ∙ ap (λ (r : UserRow). some (ws ++ put_user r ∷ [])) (merge-assigned w d row),
            v,
          )
    ]
  ]
