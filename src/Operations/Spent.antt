-- ===== src/Operations/Spent.antt =====
-- A token of users_operations after an `apply` with it.
use trash.Prelude.{
  ℕ, ◌≡◌, ◌≢◌, sym, ◌∙◌, inl, inr, true, none, some, [], ◌∷◌, ◌++◌, Text, arith, Option-cases,
  ==_refl, text_eq_iff,
}
use trash.Entity.{OperationRow, OperationType, UserRow, UserUpdate}
use trash.Runtime.{Runtime}
use trash.World.{put_user, Db, World, apply_writes}
use trash.Operations.{Options, of_user, of_token}
use trash.Operations.Applied.{deletion}
use trash.Operations.OneEach.{OneEach, Stored, same_kind_refl, same_kind_eq}
use trash.Operations.Effects.{Applied}

module _ ⦃rt : Runtime⦄ where
  -- No two operations of a kind have the same token.
  pub record DistinctTokens (db : Db) : Type 0 where
    pub one :
        (r s : OperationRow)
        → Stored r db
        → Stored s db
        → r.token ≡ s.token
        → r.kind ≡ s.kind
        → r.id ≡ s.id

  of_token_iff :
      (token : Text) (k : OperationType) (r : OperationRow)
      → of_token token k r ≡ true
      → (r.token ≡ token) × (r.kind ≡ k)
  of_token_iff token k r h =
      let t = text_eq_iff r.token token in (ground arith, same_kind_eq r.kind k (ground arith))

  of_user_iff :
      (user : ℕ) (k : OperationType) (r : OperationRow)
      → of_user user k r ≡ true
      → (r.user_id ≡ user) × (r.kind ≡ k)
  of_user_iff user k r h = (ground arith, same_kind_eq r.kind k (ground arith))

  gone :
      (c : OperationRow) (a : UserRow) (s : OperationRow) (db : Db)
      → Stored s (apply_writes (deletion (some c) ++ put_user a ∷ []) db)
      → Stored s db × (c.id ≢ s.id)
  gone c a s db h =
      let deleted = rt.operations.get-delete s.id c.id db.operations in
      (ground arith, λ same. absurd (ground arith))

  module _ (k : OperationType) (token : Text) (operation : OperationRow) (a : UserRow) (db : Db)
      (each : OneEach db) (distinct : DistinctTokens db) where
    found_own :
        rt.operations.find (of_token token k) db.operations ≡ some operation
        → (c : OperationRow) × (rt.operations.find (of_user operation.user_id k) db.operations
            ≡ some c)
          × (c.id ≡ operation.id)
    found_own f =
        let there = rt.operations.find-stored (of_token token k) db.operations operation f in
        let (_, is_kind) =
          of_token_iff token k operation
            (rt.operations.find-matches (of_token token k) db.operations operation f) in
        let test = of_user operation.user_id k in
        elim (Option-cases (rt.operations.find test db.operations)) [
          | inl missing ↦
              let misses =
                rt.operations.find-misses test db.operations operation operation.id missing there in
              absurd (ground (arith, same_kind_refl operation.kind, ==_refl operation.user_id))
          | inr (c, is) ↦
              let (own, same) =
                of_user_iff operation.user_id k c
                  (rt.operations.find-matches test db.operations c is) in
              (
                c,
                is,
                each.one c operation (rt.operations.find-stored test db.operations c is) there own
                    (same ∙ sym is_kind),
              )
        ]

    spent :
        rt.operations.find (of_token token k) db.operations ≡ some operation
        → rt.operations.find
            (of_token token k)
            (apply_writes
              (deletion (rt.operations.find (of_user operation.user_id k) db.operations)
                ++ put_user a ∷ [])
              db).operations
          ≡ none
    spent f =
        let test = of_token token k in
        let (c, is, own) = found_own f in
        let after = apply_writes (deletion (some c) ++ put_user a ∷ []) db in
        let (is_token, is_kind) =
          of_token_iff token k operation
            (rt.operations.find-matches test db.operations operation f) in
        let there = rt.operations.find-stored test db.operations operation f in
        rw is (elim (Option-cases (rt.operations.find test after.operations)) [
          | inl missing ↦ missing
          | inr (r, again) ↦
              let (same_token, same) =
                of_token_iff token k r (rt.operations.find-matches test after.operations r again) in
              let (before, other) =
                gone c a r db (rt.operations.find-stored test after.operations r again) in
              absurd (
                other (
                  own
                  ∙ sym (
                      distinct.one r operation before there (same_token ∙ sym is_token)
                        (same ∙ sym is_kind))))
        ])

  pub Applied-spent :
      {o : Options} {token : Text} {d : UserUpdate} {w w' : World} {operation : OperationRow}
      → OneEach w.committed
      → DistinctTokens w.committed
      → Applied o token d w w' operation
      → rt.operations.find (of_token token o.kind) w'.committed.operations ≡ none
  Applied-spent {o} {token} {d} {w} {w'} {operation} each distinct p =
      rw (p.done) (spent o.kind token operation _ w.committed each distinct p.found)
