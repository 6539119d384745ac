-- ===== src/Database.antt =====
-- The repositories' reads and writes, as libs/utils/src/base.repository.ts hands them to typeorm,
-- with the hooks of the entities in apps/auth/src/app/database/entities.
pub mod Laws
use trash.Prelude.{
  ℕ, ◌+◌, Bool, true, false, not, ◌&&◌, Option, none, some, List, [], ◌∷◌, ◌++◌, Text, ◌==◌,
  text_eq, truthy, if◌then◌else◌,
}
use mathlib.Core.Option
use trash.Entity.{
  UserRow, OperationRow, OperationType, OperationData, User, NewUser, Select, load_user, or_else,
  from,
}
use trash.Exceptions.{unique_violation}
use trash.Runtime.{Runtime}
use trash.World.{
  Write, put_user, put_operation, delete_operation, Result, ok, err, Db, World, Action, apply_write,
  apply_writes,
}
use trash.Action.{pure, raise, gets, modify, ◌>>=◌, ◌>>◌, call}

-- The argument `queryRunner?: QueryRunner` of a method.
pub data Runner : Type 0 where
  absent present : Runner

-- What `create` is given for an operation that is not stored yet.
pub record NewOperation : Type 0 where
  pub user_id : ℕ
  pub token : Text
  pub ttl : ℕ
  pub kind : OperationType
  pub content : OperationData

module _ ⦃rt : Runtime⦄ where
  -- With a query runner a statement sees and joins its transaction; without one it goes by the
  -- default connection, sees what is committed and commits at once.
  abbrev pub seen_in : Runner → Option (List Write) → Db → Db
  seen_in present (some ws) db = apply_writes ws db
  seen_in _ _ db = db

  abbrev pub seen : Runner → World → Db
  seen runner w = seen_in runner w.pending w.committed

  abbrev submit_in : Runner → Option (List Write) → Write → World → World
  submit_in present (some ws) x w = record w { pending = some (ws ++ x ∷ []) }
  submit_in _ _ x w = record w { committed = apply_write x w.committed }

  abbrev pub submit : Runner → Write → Action (Unit {0})
  submit runner x = modify (λ w. submit_in runner w.pending x w)

  -- `Utils.getUUID()`
  unfoldable pub get_uuid : Action Text
  get_uuid = do
    n ← gets (λ w. w.entropy)
    modify (λ w. record w { entropy = n + 1 })
    pure (rt.uuid n)

  -- `findOne`
  unfoldable pub find_user_row : Runner → (UserRow → Bool) → Action (Option UserRow)
  unfolding call
  find_user_row runner test = do call; gets (λ w. rt.users.find test (seen runner w).users)

  unfoldable pub find_user : Runner → (UserRow → Bool) → Select → Action (Option User)
  unfolding find_user_row
  find_user runner test columns = do
    row ← find_user_row runner test
    pure (Option.map (load_user columns) row)

  unfoldable pub count_users : Runner → (UserRow → Bool) → Action ℕ
  unfolding call
  count_users runner test = do call; gets (λ w. rt.users.count test (seen runner w).users)

  unfoldable pub find_operation : Runner → (OperationRow → Bool) → Action (Option OperationRow)
  unfolding call
  find_operation runner test = do
    call
    gets (λ w. rt.operations.find test (seen runner w).operations)

  -- `_encryptPassword`
  unfoldable pub encrypt_password : Option Text → Action (Option Text)
  encrypt_password p = if truthy p then hashed (from p []) else pure p
    where
      hashed : Text → Action (Option Text)
      hashed password = do
        n ← gets (λ w. w.entropy)
        modify (λ w. record w { entropy = n + 1 })
        pure (some (rt.hash password (rt.salt n)))

  -- `beforeInsert`
  abbrev pub before_insert : Text → Text
  before_insert email = if truthy (some email) then rt.lower email else email

  -- Another row than `id` has the address: the unique index on `users.email`.
  abbrev pub clashes : ℕ → Text → UserRow → Bool
  clashes id email r = text_eq r.email email && not (r.id == id)

  abbrev require_unique : Option UserRow → Action (Unit {0})
  require_unique none = pure tt
  require_unique (some r) = raise unique_violation

  -- `userRepository.save` of a new user
  unfoldable pub insert_user : Runner → NewUser → Action User
  unfolding encrypt_password find_user_row
  insert_user runner new = do
    let email = before_insert new.email
    password ← encrypt_password (some new.password)
    id ← gets (λ w. w.user_seq)
    clash ← find_user_row runner (clashes id email)
    modify (λ w. record w { user_seq = id + 1 })
    require_unique clash
    now ← gets (λ w. w.now)
    submit runner (
        put_user (record {
          id = id;
          email = email;
          password = password;
          email_verified = new.email_verified;
          created_at = now;
          updated_at = now;
        }))
    pure (record {
      id = id;
      email = some email;
      password = password;
      email_verified = some new.email_verified;
    })

  -- The columns that are set on the entity are written, and the others stay.
  abbrev pub merge : User → ℕ → UserRow → UserRow
  merge u now r = record r {
    email = from u.email r.email;
    password = or_else u.password r.password;
    email_verified = from u.email_verified r.email_verified;
    updated_at = now;
  }

  abbrev clash_of : Option Text → ℕ → UserRow → Bool
  clash_of none id r = false
  clash_of (some email) id r = clashes id email r

  abbrev update_row : Runner → User → ℕ → Option UserRow → Action (Unit {0})
  update_row runner u now none = pure tt
  update_row runner u now (some r) = submit runner (put_user (merge u now r))

  -- `userRepository.save` of a loaded user. Its row is there: the caller has just loaded it.
  unfoldable pub update_user : Runner → User → Action (Unit {0})
  unfolding encrypt_password find_user_row
  update_user runner u = do
    password ← encrypt_password u.password
    clash ← find_user_row runner (clash_of u.email u.id)
    require_unique clash
    now ← gets (λ w. w.now)
    row ← gets (λ w. rt.users.get u.id (seen runner w).users)
    update_row runner (record u { password = password }) now row

  -- `userOperationRepository.save` of a new operation
  unfoldable pub insert_operation : Runner → NewOperation → Action OperationRow
  unfolding call
  insert_operation runner new = do
    call
    id ← gets (λ w. w.operation_seq)
    now ← gets (λ w. w.now)
    modify (λ w. record w { operation_seq = id + 1 })
    let row = stored id now
    submit runner (put_operation row)
    pure row
    where
      stored : ℕ → ℕ → OperationRow
      stored id now = record {
        id = id;
        user_id = new.user_id;
        kind = new.kind;
        ttl = new.ttl;
        token = new.token;
        content = new.content;
        created_at = now;
        updated_at = now;
      }

  -- `userOperationRepository.remove`
  unfoldable pub remove_operation : Runner → OperationRow → Action (Unit {0})
  unfolding call
  remove_operation runner operation = do call; submit runner (delete_operation operation.id)
