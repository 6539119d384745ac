-- ===== src/Invariant/Tables.antt =====
-- The invariant of Invariant.antt for the writes of the service.
use trash.Prelude.{
  ℕ, ◌≡◌, ◌≢◌, refl, sym, ap, ◌∙◌, inl, inr, Option, none, some, [], ◌∷◌, ◌++◌, arith, Bool-cases,
  ◌==◌, ==_iff, text_eq_iff,
}
use trash.Entity.{UserRow, OperationRow, OperationType}
use trash.Runtime.{Runtime}
use trash.World.{put_user, put_operation, Db, apply_write, apply_writes}
use trash.Users.{has_email}
use trash.Operations.{of_user}
use trash.Operations.Applied.{deletion}
use trash.Operations.OneEach.{Stored, OneEach-renewed}
use trash.Invariant.{StoredUser, DistinctUsers, Consistent}

module _ ⦃rt : Runtime⦄ where
  -- What is stored beside a new row, and the new row.
  pub kept :
      (a r : UserRow) (t : rt.users.Rows)
      → a.id ≢ r.id
      → StoredUser r (rt.users.put a t)
      → StoredUser r t
  kept a r t other h = ground (arith, rt.users.get-put r.id a t)

  pub is_new :
      (a r : UserRow) (t : rt.users.Rows) → a.id ≡ r.id → StoredUser r (rt.users.put a t) → a ≡ r
  is_new a r t same h = ground (arith, rt.users.get-put r.id a t)

  -- A row in place of one with the same key and address.
  module _ (a old : UserRow) (t : rt.users.Rows) (stored : StoredUser old t) (own : a.id ≡ old.id)
      (same : a.email ≡ old.email) where
    record Origin (r : UserRow) : Type 0 where
      row : UserRow
      there : StoredUser row t
      id : row.id ≡ r.id
      email : row.email ≡ r.email

    origin : (r : UserRow) → StoredUser r (rt.users.put a t) → Origin r
    origin r h = elim (Bool-cases (a.id == r.id)) [
      | inl e ↦
          let is = is_new a r t ((==_iff a.id r.id).0 e) h in
          record {
            row = old;
            there = stored;
            id = sym own ∙ ap (λ (x : UserRow). x.id) is;
            email = sym same ∙ ap (λ (x : UserRow). x.email) is;
          }
      | inr n ↦ record { row = r; there = kept a r t (ground arith) h; id = refl; email = refl }
    ]

    pub DistinctUsers-replaced : DistinctUsers t → DistinctUsers (rt.users.put a t)
    DistinctUsers-replaced d = record {
      lowered = λ r h.
          let o = origin r h in ap rt.lower (sym o.email) ∙ d.lowered o.row o.there ∙ o.email;
      unique = λ r s h k e.
          let o = origin r h in
          let p = origin s k in
          sym o.id ∙ d.unique o.row p.row o.there p.there (o.email ∙ e ∙ sym p.email) ∙ p.id;
    }

  -- A row with a new address.
  module _ (a : UserRow) (t : rt.users.Rows) (small : rt.lower a.email ≡ a.email)
      (free : rt.users.find (has_email a.email) t ≡ none) where
    not_taken : (r : UserRow) → StoredUser r t → r.email ≢ a.email
    not_taken r h e =
        let misses = rt.users.find-misses (has_email a.email) t r r.id free h in
        ground (arith, text_eq_iff r.email a.email)

    pub DistinctUsers-added : DistinctUsers t → DistinctUsers (rt.users.put a t)
    DistinctUsers-added d = record {
      lowered = λ r h. elim (Bool-cases (a.id == r.id)) [
        | inl e ↦
            let is = ap (λ (x : UserRow). x.email) (is_new a r t ((==_iff a.id r.id).0 e) h) in
            ap rt.lower (sym is) ∙ small ∙ is
        | inr n ↦ d.lowered r (kept a r t (ground arith) h)
      ];
      unique = λ r s h k e. elim (Bool-cases (a.id == r.id)) [
        | inl x ↦ elim (Bool-cases (a.id == s.id)) [
          | inl y ↦ omega (arith, (==_iff a.id r.id).0 x, (==_iff a.id s.id).0 y)
          | inr y ↦
              let is = ap (λ (x : UserRow). x.email) (is_new a r t ((==_iff a.id r.id).0 x) h) in
              absurd (not_taken s (kept a s t (ground arith) k) (sym e ∙ sym is))
        ]
        | inr x ↦ elim (Bool-cases (a.id == s.id)) [
          | inl y ↦
              let is = ap (λ (x : UserRow). x.email) (is_new a s t ((==_iff a.id s.id).0 y) k) in
              absurd (not_taken r (kept a r t (ground arith) h) (e ∙ sym is))
          | inr y ↦ d.unique r s (kept a r t (ground arith) h) (kept a s t (ground arith) k) e
        ]
      ];
    }

  -- An operation less, and a row in place of an old one.
  still-Stored :
      (p : Option OperationRow) (a : UserRow) (s : OperationRow) (db : Db)
      → Stored s (apply_writes (deletion p ++ put_user a ∷ []) db)
      → Stored s db
  still-Stored none a s db h = h
  still-Stored (some c) a s db h = ground (arith, rt.operations.get-delete s.id c.id db.operations)

  pub users_replaced :
      (p : Option OperationRow) (a : UserRow) (db : Db)
      → (apply_writes (deletion p ++ put_user a ∷ []) db).users ≡ rt.users.put a db.users
  users_replaced none a db = refl
  users_replaced (some c) a db = refl

  pub Consistent-applied :
      (p : Option OperationRow) (a old : UserRow) (db : Db)
      → StoredUser old db.users
      → a.id ≡ old.id
      → a.email ≡ old.email
      → Consistent db
      → Consistent (apply_writes (deletion p ++ put_user a ∷ []) db)
  Consistent-applied p a old db stored own same c = record {
    users =
        rw (users_replaced p a db) (DistinctUsers-replaced a old db.users stored own same c.users);
    operations = record {
      one = λ r s h k. c.operations.one r s (still-Stored p a r db h) (still-Stored p a s db k);
    };
  }

  pub users_same :
      (p : Option OperationRow) (operation : OperationRow) (db : Db)
      → (apply_writes (deletion p ++ put_operation operation ∷ []) db).users ≡ db.users
  users_same none operation db = refl
  users_same (some c) operation db = refl

  -- A new operation in place of the one of its user and kind.
  pub Consistent-renewed :
      (k : OperationType) (user : ℕ) (operation : OperationRow) (db : Db)
      → Consistent db
      → operation.user_id ≡ user
      → operation.kind ≡ k
      → Consistent (
          apply_writes
            (deletion (rt.operations.find (of_user user k) db.operations)
              ++ put_operation operation ∷ [])
            db)
  Consistent-renewed k user operation db c u e = record {
    users =
        rw (users_same (rt.operations.find (of_user user k) db.operations) operation db) c.users;
    operations = OneEach-renewed k user operation db c.operations u e;
  }

  pub Consistent-added :
      (a : UserRow) (db : Db)
      → rt.lower a.email ≡ a.email
      → rt.users.find (has_email a.email) db.users ≡ none
      → Consistent db
      → Consistent (apply_write (put_user a) db)
  Consistent-added a db small free c = record {
    users = DistinctUsers-added a db.users small free c.users;
    operations = record { one = c.operations.one };
  }
