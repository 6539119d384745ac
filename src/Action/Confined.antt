-- ===== src/Action/Confined.antt =====
-- Actions that stay inside the open transaction: what is committed is the same after them, and
-- the transaction is still open. One rule for each way to build an action.
use trash.Prelude.{
  ◌⊎◌, inl, inr, refl, ◌≡◌, Bool, true, false, Option, none, some, List, Text, arith, if◌then◌else◌,
}
use trash.Entity.{OperationRow, UserRow, User, NewUser, Select}
use trash.Exceptions.{Exception}
use trash.Runtime.{Runtime}
use trash.World.{Write, Result, ok, err, World, Action}
use trash.Action.{commit_transaction, pure, raise, gets, continue, ◌>>=◌, ◌>>◌, call}
use trash.Database.{
  Runner, present, NewOperation, get_uuid, encrypt_password, find_user_row, find_user, count_users,
  find_operation, insert_user, update_user, insert_operation, remove_operation,
}

module _ ⦃rt : Runtime⦄ where
  abbrev pub is_open : Option (List Write) → Bool
  is_open none = false
  is_open (some ws) = true

  -- The transaction is open in `w`, and what is committed is what `v` has committed.
  pub record Within (v w : World) : Type 0 where
    pub same : w.committed ≡ v.committed
    pub opened : is_open w.pending ≡ true

  pub record Confined {ℓ} {A : Type ℓ} (m : Action A) : Type ℓ where
    pub at : (v w : World) → Within v w → Within v (m w).1

  pub Confined-pure {ℓ} : {A : Type ℓ} (a : A) → Confined (pure a)
  Confined-pure a = record { at = λ v w i. i }

  pub Confined-raise {ℓ} : {A : Type ℓ} (x : Exception) → Confined (raise {A = A} x)
  Confined-raise x = record { at = λ v w i. i }

  Within-continue {ℓ κ} :
      {A : Type ℓ} {B : Type κ} (f : A → Action B) (v : World) (r : Result A × World)
      → Within v r.1
      → ((a : A) → Confined (f a))
      → Within v (continue r f).1
  Within-continue f v (ok a, w) i k = (k a).at v w i
  Within-continue f v (err x, w) i k = i

  pub Confined-bind {ℓ κ} :
      {A : Type ℓ} {B : Type κ} (m : Action A) (f : A → Action B)
      → Confined m
      → ((a : A) → Confined (f a))
      → Confined (m >>= f)
  Confined-bind m f c k = record { at = λ v w i. Within-continue f v (m w) (c.at v w i) k }

  pub Confined-then {ℓ κ} :
      {A : Type ℓ} {B : Type κ} (m : Action A) (n : Action B)
      → Confined m
      → Confined n
      → Confined (m >> n)
  Confined-then m n c d = Confined-bind m (λ _. n) c (λ _. d)

  pub Confined-gets {ℓ κ} :
      {A : Type ℓ} {B : Type κ} (g : World → A) (f : A → Action B)
      → ((a : A) → Confined (f a))
      → Confined (gets g >>= f)
  Confined-gets g f k = record { at = λ v w i. (k (g w)).at v w i }

  pub Confined-if {ℓ} :
      {A : Type ℓ} (b : Bool) (m n : Action A)
      → Confined m
      → Confined n
      → Confined (if b then m else n)
  Confined-if true m n c d = c
  Confined-if false m n c d = d

  pub call-Confined : Confined (call)
  unfolding call
  call-Confined = record { at = λ v w i. ground arith }

  pub get_uuid-Confined : Confined (get_uuid)
  unfolding get_uuid
  get_uuid-Confined = record { at = λ v w i. ground arith }

  pub find_user_row-Confined : (r : Runner) (p : UserRow → Bool) → Confined (find_user_row r p)
  unfolding find_user_row
  find_user_row-Confined r p = record { at = λ v w i. ground arith }

  pub find_user-Confined :
      (r : Runner) (p : UserRow → Bool) (s : Select) → Confined (find_user r p s)
  unfolding find_user
  find_user-Confined r p s = record { at = λ v w i. ground arith }

  pub count_users-Confined : (r : Runner) (p : UserRow → Bool) → Confined (count_users r p)
  unfolding count_users
  count_users-Confined r p = record { at = λ v w i. ground arith }

  pub find_operation-Confined :
      (r : Runner) (p : OperationRow → Bool) → Confined (find_operation r p)
  unfolding find_operation
  find_operation-Confined r p = record { at = λ v w i. ground arith }

  pub encrypt_password-Confined : (p : Option Text) → Confined (encrypt_password p)
  unfolding encrypt_password
  encrypt_password-Confined p = record { at = λ v w i. ground arith }

  pub insert_user-Confined : (u : NewUser) → Confined (insert_user present u)
  unfolding insert_user
  insert_user-Confined u = record { at = λ v w i. ground arith }

  pub update_user-Confined : (u : User) → Confined (update_user present u)
  unfolding update_user
  update_user-Confined u = record { at = λ v w i. ground arith }

  pub insert_operation-Confined : (o : NewOperation) → Confined (insert_operation present o)
  unfolding insert_operation
  insert_operation-Confined o = record { at = λ v w i. ground arith }

  pub remove_operation-Confined : (o : OperationRow) → Confined (remove_operation present o)
  unfolding remove_operation
  remove_operation-Confined o = record { at = λ v w i. ground arith }

  -- A commit that fails leaves the transaction as it is.
  pub commit-err :
      (x : Exception) (v u w : World) → Within v u → commit_transaction u ≡ (err x, w) → Within v w
  unfolding commit_transaction call
  commit-err x v u w i e = ground arith

  pub continue-err {ℓ κ} :
      {A : Type ℓ} {B : Type κ} (r : Result A × World) (f : A → Action B) (x : Exception)
      (w : World)
      → continue r f ≡ (err x, w)
      → (r ≡ (err x, w)) ⊎ ((a : A) × (u : World) × (r ≡ (ok a, u)) × (f a u ≡ (err x, w)))
  continue-err (ok a, u) f x w e = inr (a, u, refl, e)
  continue-err (err y, u) f x w e = inl (cc)
