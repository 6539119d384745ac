-- ===== src/Auth/Confirmable.antt =====
-- When `UsersOperationsProcessorSignUp.apply` runs to its end, and what the look-ups by token, by
-- number and by address find in a consistent database.
use trash.Prelude.{
  ◌≡◌, refl, true, false, none, some, [], ◌∷◌, Text, arith, Option-cases, Bool-cases, inl, inr,
  truthy, text_eq, text_eq_iff, text_eq_refl, ==_iff, ==_refl, ltb, if◌then◌else◌,
}
use trash.Entity.{OperationRow, UserRow, select_all, load_user}
use trash.Runtime.{Runtime, has_prefix_2y}
use trash.Runtime.Finds.{find-some, find-none}
use trash.World.{ok, Db, World}
use trash.Action.{call, start_transaction, commit_transaction}
use trash.Database.{find_user, find_operation, update_user, remove_operation, clashes}
use trash.Users
use trash.Users.{EmailAuthCreateData, has_email, has_id}
use trash.Operations
use trash.Operations.{in_transaction, of_token, of_user, add_hours}
use trash.Operations.OneEach.{Stored, same_kind_refl, same_kind_eq}
use trash.Operations.Spent.{DistinctTokens}
use trash.Operations.SignUp
use trash.Auth
use trash.Invariant.{StoredUser, DistinctUsers}

module _ ⦃rt : Runtime⦄ where
  -- An open operation to sign up whose user is there is applied when no call fails.
  pub sign_up_apply-runs :
      (token : Text) (operation : OperationRow) (row : UserRow) (v : World)
      → v.faults ≡ []
      → rt.operations.find (of_token token SignUp.options.kind) v.committed.operations
        ≡ some operation
      → ltb operation.ttl v.now ≡ false
      → rt.users.find (has_id operation.user_id) v.committed.users ≡ some row
      → rt.users.find (clashes row.id row.email) v.committed.users ≡ none
      → rt.users.get row.id v.committed.users ≡ some row
      → (SignUp.apply token v).0 ≡ ok (some operation)
  unfolding SignUp.apply in_transaction Operations.apply Operations.close Users.update
      find_operation find_user update_user remove_operation start_transaction commit_transaction
      call
  sign_up_apply-runs token operation row v h found in_time user free there =
      elim (Option-cases (
        rt.operations.find (of_user operation.user_id SignUp.options.kind)
          v.committed.operations)) [
            | inl nothing ↦ rw (h, found, in_time, nothing, user, free, there) refl
            | inr (other, is) ↦ rw (h, found, in_time, is, user, free, there) refl
          ]

  -- The one with that token and kind that is there.
  pub token-finds :
      (operation : OperationRow) (db : Db)
      → Stored operation db
      → DistinctTokens db
      → rt.operations.find (of_token operation.token operation.kind) db.operations ≡ some operation
  token-finds operation db there distinct =
      find-some rt.operations _ db.operations operation there
        (rw (text_eq_refl operation.token, same_kind_refl operation.kind) refl)
        (λ s stored same.
          distinct.one s operation stored there
            ((text_eq_iff s.token operation.token).0 (ground (arith, same)))
            (same_kind_eq s.kind operation.kind (ground (arith, same))))

  pub id-finds :
      (row : UserRow) (t : rt.users.Rows)
      → StoredUser row t
      → rt.users.find (has_id row.id) t ≡ some row
  id-finds row t there =
      find-some rt.users (has_id row.id) t row there (==_refl row.id)
        (λ s stored same. (==_iff s.id row.id).0 same)

  pub no-clash :
      (row : UserRow) (t : rt.users.Rows)
      → StoredUser row t
      → DistinctUsers t
      → rt.users.find (clashes row.id row.email) t ≡ none
  no-clash row t there distinct = find-none rt.users (clashes row.id row.email) t (λ s stored.
      elim (Bool-cases (text_eq s.email row.email)) [
        | inl same ↦
            let is = distinct.unique s row stored there ((text_eq_iff s.email row.email).0 same) in
            rw (same, is, ==_refl row.id) refl
        | inr other ↦ rw other refl
      ])

  pub email-finds :
      (row : UserRow) (t : rt.users.Rows)
      → StoredUser row t
      → DistinctUsers t
      → rt.users.find (has_email row.email) t ≡ some row
  email-finds row t there distinct =
      find-some rt.users (has_email row.email) t row there (text_eq_refl row.email)
        (λ s stored same.
          distinct.unique s row stored there ((text_eq_iff s.email row.email).0 same))

  normalized-same : (s : Text) → has_prefix_2y s ≡ false → Auth.normalized s ≡ s
  normalized-same [] h = refl
  normalized-same (a ∷ []) h = refl
  normalized-same (a ∷ b ∷ []) h = refl
  normalized-same (a ∷ b ∷ c ∷ s) h = rw h refl

  compares_text :
      (p h : Text)
      → text_eq [] h ≡ false
      → has_prefix_2y h ≡ false
      → rt.matches p h ≡ true
      → (if truthy (some h) then rt.matches p (Auth.normalized h) else false) ≡ true
  unfolding text_eq
  compares_text p [] e n m = absurd (ground (arith, e))
  compares_text p (c ∷ h) e n m = rw (normalized-same (c ∷ h) n) m

  pub compares :
      (p s : Text) (row : UserRow)
      → row.password ≡ some (rt.hash p s)
      → Auth.password_compare (load_user select_all row) p ≡ true
  unfolding Auth.password_compare
  compares p s row h = rw h (
      compares_text p (rt.hash p s) (rt.hash_not_empty p s) (rt.hash_prefix p s)
        (rt.matches-hash p s))
