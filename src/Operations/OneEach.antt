-- ===== src/Operations/OneEach.antt =====
-- The invariant that a user has at most one operation of each kind, and `create` of
-- users_operations.
use trash.Prelude.{
  ℕ, ◌≡◌, ◌≢◌, refl, ap, sym, subst, ◌∙◌, inl, inr, Bool, true, Option, none, some, [], ◌∷◌, ◌++◌,
  arith, Option-cases, Bool-cases, ◌==◌, ==_iff, ==_refl,
}
use trash.Entity.{
  OperationRow, OperationType, OperationData, same_kind, sign_up, sign_up_confirm,
  password_recovery, password_change, email_change, email_sign,
}
use trash.Runtime.{Runtime}
use trash.World.{put_operation, ok, Db, World, apply_writes}
use trash.Database.{absent}
use trash.Operations
use trash.Operations.{Options, of_user}
use trash.Operations.Applied.{deletion}
use trash.Operations.Unique.{create-some}

pub same_kind_refl : (k : OperationType) → same_kind k k ≡ true
unfolding same_kind
same_kind_refl sign_up = refl
same_kind_refl sign_up_confirm = refl
same_kind_refl password_recovery = refl
same_kind_refl password_change = refl
same_kind_refl email_change = refl
same_kind_refl email_sign = refl

pub same_kind_eq : (j k : OperationType) → same_kind j k ≡ true → j ≡ k
unfolding same_kind
same_kind_eq j k h = ground arith

module _ ⦃rt : Runtime⦄ where
  abbrev pub Stored : OperationRow → Db → Type 0
  Stored r db = rt.operations.get r.id db.operations ≡ some r

  pub record OneEach (db : Db) : Type 0 where
    pub one :
        (r s : OperationRow)
        → Stored r db
        → Stored s db
        → r.user_id ≡ s.user_id
        → r.kind ≡ s.kind
        → r.id ≡ s.id

  abbrev pub renewed_by : Option OperationRow → OperationRow → Db → Db
  renewed_by p operation db = apply_writes (deletion p ++ put_operation operation ∷ []) db

  -- What is stored besides the new operation was stored before, and is not the closed one.
  kept :
      (p : Option OperationRow) (operation s : OperationRow) (db : Db)
      → operation.id ≢ s.id
      → Stored s (renewed_by p operation db)
      → Stored s db
  kept none operation s db new h =
      ground (arith, rt.operations.get-put s.id operation db.operations)
  kept (some c) operation s db new h = ground (
    arith,
    rt.operations.get-put s.id operation (rt.operations.delete c.id db.operations),
    rt.operations.get-delete s.id c.id db.operations,
  )

  not_closed :
      (c operation s : OperationRow) (db : Db)
      → operation.id ≢ s.id
      → Stored s (renewed_by (some c) operation db)
      → c.id ≢ s.id
  not_closed c operation s db new h same = ground (
    arith,
    rt.operations.get-put s.id operation (rt.operations.delete c.id db.operations),
    rt.operations.get-delete s.id c.id db.operations,
  )

  new_one :
      (p : Option OperationRow) (operation s : OperationRow) (db : Db)
      → operation.id ≡ s.id
      → Stored s (renewed_by p operation db)
      → operation ≡ s
  new_one none operation s db same h =
      ground (arith, rt.operations.get-put s.id operation db.operations)
  new_one (some c) operation s db same h =
      ground (arith, rt.operations.get-put s.id operation (rt.operations.delete c.id db.operations))

  -- No operation of that user and kind is left beside the new one.
  stale :
      (k : OperationType) (user : ℕ) (operation s : OperationRow) (db : Db)
      → OneEach db
      → s.user_id ≡ user
      → s.kind ≡ k
      → operation.id ≢ s.id
      → ¬ Stored s (renewed_by (rt.operations.find (of_user user k) db.operations) operation db)
  stale k user operation s db inv u e new stored =
      elim (Option-cases (rt.operations.find test db.operations)) [
        | inl missing ↦
            let none_here = rw missing at stored in
            let unmatched =
              rt.operations.find-misses test db.operations s s.id missing
                (kept none operation s db new none_here) in
            ground (arith, unmatched, same_kind_refl k, ==_refl user)
        | inr (c, found) ↦
            let gone = rw found at stored in
            let matching = rt.operations.find-matches test db.operations c found in
            let there = rt.operations.find-stored test db.operations c found in
            not_closed c operation s db new gone (
              inv.one c s there (kept (some c) operation s db new gone) (ground (arith, matching))
                (same_kind_eq c.kind k (ground (arith, matching)) ∙ sym e))
      ]
    where
      test : OperationRow → Bool
      test = of_user user k

  pub OneEach-renewed :
      (k : OperationType) (user : ℕ) (operation : OperationRow) (db : Db)
      → OneEach db
      → operation.user_id ≡ user
      → operation.kind ≡ k
      → OneEach (renewed_by (rt.operations.find (of_user user k) db.operations) operation db)
  OneEach-renewed k user operation db inv u e = record {
    one = λ r s hr hs same_user same_type. elim (Bool-cases (operation.id == r.id)) [
      | inl a ↦ elim (Bool-cases (operation.id == s.id)) [
        | inl b ↦ omega (arith, (==_iff operation.id r.id).0 a, (==_iff operation.id s.id).0 b)
        | inr b ↦
            let is_new = new_one p operation r db ((==_iff operation.id r.id).0 a) hr in
            absurd (
              stale k user operation s db inv
                (sym same_user ∙ ap (λ (x : OperationRow). x.user_id) (sym is_new) ∙ u)
                (sym same_type ∙ ap (λ (x : OperationRow). x.kind) (sym is_new) ∙ e) (ground arith)
                hs)
      ]
      | inr a ↦ elim (Bool-cases (operation.id == s.id)) [
        | inl b ↦
            let is_new = new_one p operation s db ((==_iff operation.id s.id).0 b) hs in
            absurd (
              stale k user operation r db inv
                (same_user ∙ ap (λ (x : OperationRow). x.user_id) (sym is_new) ∙ u)
                (same_type ∙ ap (λ (x : OperationRow). x.kind) (sym is_new) ∙ e) (ground arith) hr)
        | inr b ↦
            inv.one r s (kept p operation r db (ground arith) hr)
              (kept p operation s db (ground arith) hs) same_user same_type
      ]
    ];
  }
    where
      p : Option OperationRow
      p = rt.operations.find (of_user user k) db.operations

  -- Where each user has at most one operation of each kind, that is still so after a `create` with no
  -- query runner that returns an operation.
  pub create-OneEach :
      (o : Options) (user : ℕ) (content : OperationData) (operation : OperationRow) (w w' : World)
      → OneEach w.committed
      → Operations.create o user content absent w ≡ (ok (some operation), w')
      → OneEach w'.committed
  create-OneEach o user content operation w w' inv e =
      let (is_new, done, _) = create-some o user content w operation w' e in
      subst OneEach (sym done) (
        OneEach-renewed o.kind user operation w.committed inv
          (ap (λ (x : OperationRow). x.user_id) is_new) (ap (λ (x : OperationRow). x.kind) is_new))
