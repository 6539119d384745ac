-- ===== src/Operations/Changes.antt =====
-- What the four `apply` methods of apps/auth/src/app/processors/users_operations have done to the
-- database when they return an operation.
use trash.Prelude.{
  ◌≡◌, ap, subst, ◌∙◌, Option, none, some, inl, inr, Option-cases, Bool, true, Text, arith, ℕ,
}
use trash.Entity.{
  OperationRow, UserRow, UserUpdate, OperationData, null, password_data, email_data, sign_up,
  password_recovery, password_change, email_change,
}
use trash.Runtime.{Runtime}
use trash.World.{ok, World}
use trash.Action.{call}
use trash.Database.{present, count_users}
use trash.Users
use trash.Operations.Atomic.{in_transaction-ok}
use trash.Operations.Applied.{SameView}
use trash.Operations.Effects.{
  continue-ok, returned, Updates, Updates-refl, update_and_drop, Applied, in_transaction-Applied,
}
use trash.Operations.SignUp
use trash.Operations.PasswordRecovery
use trash.Operations.PasswordChange
use trash.Operations.EmailChange
use trash.Operations.EmailChange.{has_some_email}

-- The data of an operation, as a password or as an address.
abbrev pub stored_password : OperationData → Option Text
stored_password (password_data p) = p
stored_password _ = none

abbrev pub stored_email : OperationData → Option Text
stored_email (email_data e) = e
stored_email _ = none

module _ ⦃rt : Runtime⦄ where
  confirm-Updates :
      (operation : OperationRow) (a : Option OperationRow) (u v' : World)
      → SignUp.confirm a u ≡ (ok (some operation), v')
      → (a ≡ some operation) × Updates operation.user_id SignUp.verified u v'
  confirm-Updates operation none u v' e = absurd (cc)
  confirm-Updates operation (some r) u v' e =
      let (_, u1, runs, ends) =
        continue-ok (Users.update r.user_id SignUp.verified present u) _ _ v' e in
      let (same, last) = returned ends in
      (
        ap some same,
        subst (λ x. Updates operation.user_id SignUp.verified u x) last
            (Updates-refl (
              subst
                (λ (x : OperationRow).
                  Users.update x.user_id SignUp.verified present u ≡ (ok tt, u1))
                same runs)),
      )

  set_recovered-Updates :
      (password : Text) (operation : OperationRow) (a : Option OperationRow) (u v' : World)
      → PasswordRecovery.set_password password a u ≡ (ok (some operation), v')
      → (a ≡ some operation)
        × Updates operation.user_id (PasswordRecovery.new_password password) u v'
  set_recovered-Updates password operation none u v' e = absurd (cc)
  set_recovered-Updates password operation (some r) u v' e =
      let (same, ups) =
        update_and_drop (PasswordRecovery.new_password password) r operation u v' e in
      (ap some same, ups)

  set_changed-Updates :
      (operation : OperationRow) (a : Option OperationRow) (u v' : World)
      → PasswordChange.set_password a u ≡ (ok (some operation), v')
      → (a ≡ some operation)
        × Updates operation.user_id
            (PasswordChange.new_password (stored_password operation.content))
            u
            v'
  set_changed-Updates operation none u v' e = absurd (cc)
  set_changed-Updates operation (some r) u v' e =
      let (password, u1, reads, rest) =
        continue-ok (PasswordChange.password_of r.content u) _ _ v' e in
      let (is_password, here) = password_of-ok r.content password u u1 reads in
      let (same, ups) =
        update_and_drop (PasswordChange.new_password password) r operation u1 v' rest in
      (
        ap some same,
        subst (λ d. Updates operation.user_id (PasswordChange.new_password d) u v')
            (is_password ∙ ap (λ (x : OperationRow). stored_password x.content) same)
            (subst (λ x. Updates operation.user_id (PasswordChange.new_password password) x v') here
              ups),
      )
    where
      password_of-ok :
          (d : OperationData) (p : Option Text) (x y : World)
          → PasswordChange.password_of d x ≡ (ok p, y)
          → (p ≡ stored_password d) × (y ≡ x)
      password_of-ok null p x y h = absurd (cc)
      password_of-ok (password_data q) p x y h = (cc, cc)
      password_of-ok (email_data q) p x y h = (cc, cc)

  -- `_checkoutEmail` passes only an address that no user has.
  record Checked (email : Option Text) (u v : World) : Type 0 where
    free : rt.users.find (has_some_email email) u.committed.users ≡ none
    same : SameView u v
    pending : v.pending ≡ u.pending

  checkout-Checked :
      (email : Option Text) (u v : World)
      → EmailChange.checkout_email email u ≡ (ok tt, v)
      → Checked email u v
  unfolding EmailChange.checkout_email count_users call
  checkout-Checked email u v e = record {
    free = elim (Option-cases found) [
      | inl missing ↦ missing
      | inr (r, is) ↦
          let some_count = rt.users.count-some test u.committed.users r is in ground arith
    ];
    same = ground arith;
    pending = ground arith;
  }
    where
      test : UserRow → Bool
      test = has_some_email email

      found : Option UserRow
      found = rt.users.find test u.committed.users

  set_email-Updates :
      (operation : OperationRow) (a : Option OperationRow) (u v' : World)
      → EmailChange.set_email a u ≡ (ok (some operation), v')
      → (a ≡ some operation)
        × Updates operation.user_id (EmailChange.new_email (stored_email operation.content)) u v'
  set_email-Updates operation none u v' e = absurd (cc)
  set_email-Updates operation (some r) u v' e =
      let (email, u1, reads, rest) = continue-ok (EmailChange.email_of r.content u) _ _ v' e in
      let (is_email, here) = email_of-ok r.content email u u1 reads in
      let (_, u2, checks, rest') = continue-ok (EmailChange.checkout_email email u1) _ _ v' rest in
      let checked = checkout-Checked email u1 u2 checks in
      let (same, ups) = update_and_drop (EmailChange.new_email email) r operation u2 v' rest' in
      (
        ap some same,
        subst (λ d. Updates operation.user_id (EmailChange.new_email d) u v')
            (is_email ∙ ap (λ (x : OperationRow). stored_email x.content) same)
            (subst (λ x. Updates operation.user_id (EmailChange.new_email email) x v') here
              (Updates-after checked ups)),
      )
    where
      email_of-ok :
          (d : OperationData) (p : Option Text) (x y : World)
          → EmailChange.email_of d x ≡ (ok p, y)
          → (p ≡ stored_email d) × (y ≡ x)
      email_of-ok null p x y h = absurd (cc)
      email_of-ok (password_data q) p x y h = (cc, cc)
      email_of-ok (email_data q) p x y h = (cc, cc)

      Updates-after :
          {email : Option Text} {user_id : ℕ} {d : UserUpdate} {x y z : World}
          → Checked email x y
          → Updates user_id d y z
          → Updates user_id d x z
      Updates-after c ups = record {
        before = ups.before;
        after = ups.after;
        runs = ups.runs;
        same_after = ups.same_after;
        pending_after = ups.pending_after;
        same_before = record {
          committed = ups.same_before.committed ∙ c.same.committed;
          now = ups.same_before.now ∙ c.same.now;
          entropy = ups.same_before.entropy ∙ c.same.entropy;
        };
        pending_before = ups.pending_before ∙ c.pending;
      }

  -- If `apply` of the sign-up returns an operation, it was stored under the token and not out of
  -- time, and in one commit the operation that the look-up by its user and kind finds (itself,
  -- where the user has one of the kind) was removed and its user's row changed: the address is
  -- marked as verified, `updated_at` is the time, and the other columns are as they were.
  pub sign_up-Applied :
      (token : Text) (operation : OperationRow) (w : World)
      → (SignUp.apply token w).0 ≡ ok (some operation)
      → Applied
          (record { kind = sign_up; ttl_in_hours = 72 })
          token
          (record { email = none; email_verified = some true; password = none })
          w
          (SignUp.apply token w).1
          operation
  unfolding SignUp.apply
  sign_up-Applied token operation w e =
      let (fs, p, c) = in_transaction-ok (SignUp.apply_body token) w (some operation) e in
      in_transaction-Applied SignUp.options token SignUp.verified operation w fs SignUp.confirm
        (confirm-Updates operation) p c

  -- If `apply` of the password recovery returns an operation, it was stored under the token and not
  -- out of time, and in one commit the operation that the look-up by its user and kind finds
  -- (itself, where the user has one of the kind) was removed and its user's row changed: the
  -- password is the new one, hashed (an empty one as it is), `updated_at` is the time, and the
  -- other columns are as they were.
  pub password_recovery-Applied :
      (token password : Text) (operation : OperationRow) (w : World)
      → (PasswordRecovery.apply token password w).0 ≡ ok (some operation)
      → Applied
          (record { kind = password_recovery; ttl_in_hours = 72 })
          token
          (record { email = none; email_verified = none; password = some password })
          w
          (PasswordRecovery.apply token password w).1
          operation
  unfolding PasswordRecovery.apply
  password_recovery-Applied token password operation w e =
      let (fs, p, c) =
        in_transaction-ok (PasswordRecovery.apply_body token password) w (some operation) e in
      in_transaction-Applied PasswordRecovery.options token (PasswordRecovery.new_password password)
        operation w fs (PasswordRecovery.set_password password)
        (set_recovered-Updates password operation) p c

  -- If `apply` of the password change returns an operation, it was stored under the token and not
  -- out of time, and in one commit the operation that the look-up by its user and kind finds
  -- (itself, where the user has one of the kind) was removed and its user's row changed: the
  -- password is that of the operation's data, hashed (an empty one as it is), if there is one,
  -- `updated_at` is the time, and the other columns are as they were.
  pub password_change-Applied :
      (token : Text) (operation : OperationRow) (w : World)
      → (PasswordChange.apply token w).0 ≡ ok (some operation)
      → Applied
          (record { kind = password_change; ttl_in_hours = 72 })
          token
          (record {
            email = none;
            email_verified = none;
            password = stored_password operation.content;
          })
          w
          (PasswordChange.apply token w).1
          operation
  unfolding PasswordChange.apply
  password_change-Applied token operation w e =
      let (fs, p, c) = in_transaction-ok (PasswordChange.apply_body token) w (some operation) e in
      in_transaction-Applied PasswordChange.options token
        (PasswordChange.new_password (stored_password operation.content)) operation w fs
        PasswordChange.set_password (set_changed-Updates operation) p c

  -- If `apply` of the email change returns an operation, it was stored under the token and not out
  -- of time, and in one commit the operation that the look-up by its user and kind finds (itself,
  -- where the user has one of the kind) was removed and its user's row changed: the address is that
  -- of the operation's data, as it stands there, if there is one, `updated_at` is the time, and the
  -- other columns are as they were.
  pub email_change-Applied :
      (token : Text) (operation : OperationRow) (w : World)
      → (EmailChange.apply token w).0 ≡ ok (some operation)
      → Applied
          (record { kind = email_change; ttl_in_hours = 72 })
          token
          (record {
            email = stored_email operation.content;
            email_verified = none;
            password = none;
          })
          w
          (EmailChange.apply token w).1
          operation
  unfolding EmailChange.apply
  email_change-Applied token operation w e =
      let (fs, p, c) = in_transaction-ok (EmailChange.apply_body token) w (some operation) e in
      in_transaction-Applied EmailChange.options token
        (EmailChange.new_email (stored_email operation.content)) operation w fs
        EmailChange.set_email (set_email-Updates operation) p c
