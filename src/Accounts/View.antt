-- ===== src/Accounts/View.antt =====
-- The accounts in a database after a row has been put.
use mathlib.Core.Option
use mathlib.Core.Path.{fun_ext}
use trash.Prelude.{
  ◌≡◌, ◌≢◌, refl, sym, ap, subst, ◌∙◌, false, some, Text, arith, Option-cases, Bool-cases, inl, inr,
  text_eq, text_eq_iff, text_eq_refl, ◌==◌, ==_iff, ==_refl,
}
use trash.Entity.{UserRow}
use trash.Runtime.{Runtime}
use trash.Runtime.Finds.{find-some, find-none}
use trash.World.{Db}
use trash.Users.{has_email}
use trash.Accounts.{set_at, account, view}
use trash.Invariant.{StoredUser, DistinctUsers}
use trash.Invariant.Tables.{kept, is_new}

module _ ⦃rt : Runtime⦄ where
  put-Stored : (a : UserRow) (t : rt.users.Rows) → StoredUser a (rt.users.put a t)
  put-Stored a t = rt.users.get-put a.id a t ∙ rw (==_refl a.id) refl

  beside :
      (a r : UserRow) (t : rt.users.Rows)
      → a.id ≢ r.id
      → StoredUser r t
      → StoredUser r (rt.users.put a t)
  beside a r t other h = ground (arith, rt.users.get-put r.id a t)

  -- A row is put under a key at which there was none with another address.
  module _ (a : UserRow) (t : rt.users.Rows)
      (own : (r : UserRow) → StoredUser r t → r.id ≡ a.id → r.email ≡ a.email)
      (after : DistinctUsers (rt.users.put a t)) where
    find-own : rt.users.find (has_email a.email) (rt.users.put a t) ≡ some a
    find-own =
        find-some rt.users (has_email a.email) (rt.users.put a t) a (put-Stored a t)
          (text_eq_refl a.email)
          (λ s stored same.
            after.unique s a stored (put-Stored a t) ((text_eq_iff s.email a.email).0 same))

    find-other :
        (x : Text)
        → text_eq a.email x ≡ false
        → rt.users.find (has_email x) (rt.users.put a t) ≡ rt.users.find (has_email x) t
    find-other x differs = elim (Option-cases (rt.users.find (has_email x) t)) [
      | inl missing ↦
          find-none rt.users (has_email x) (rt.users.put a t) (λ s stored.
            elim (Bool-cases (a.id == s.id)) [
              | inl same ↦
                  let is = is_new a s t ((==_iff a.id s.id).0 same) stored in
                  subst (λ (r : UserRow). has_email x r ≡ false) is differs
              | inr other ↦
                  rt.users.find-misses (has_email x) t s s.id missing
                    (kept a s t (ground arith) stored)
            ])
          ∙ sym missing
      | inr (r, found) ↦
          let stored = rt.users.find-stored (has_email x) t r found in
          let is = (text_eq_iff r.email x).0 (rt.users.find-matches (has_email x) t r found) in
          let other : a.id ≢ r.id = λ e.
            let taken = (text_eq_iff a.email x).1 (sym (own r stored (sym e)) ∙ is) in
            ground (arith, taken, differs) in
          let still = beside a r t other stored in
          find-some rt.users (has_email x) (rt.users.put a t) r still
            (rt.users.find-matches (has_email x) t r found)
            (λ s there same. after.unique s r there still ((text_eq_iff s.email x).0 same ∙ sym is))
          ∙ sym found
    ]

    pub view-put :
        (db db' : Db)
        → db.users ≡ t
        → db'.users ≡ rt.users.put a t
        → view db' ≡ set_at a.email (account a) (view db)
    view-put db db' e e' = fun_ext (λ x. elim (Bool-cases (text_eq a.email x)) [
      | inl here ↦
          let is = (text_eq_iff a.email x).0 here in
          rw (e', here, ← is) (ap (Option.map account) find-own)
      | inr other ↦ rw (e', other, e) (ap (Option.map account) (find-other x other))
    ])
