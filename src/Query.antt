-- ===== src/Query.antt =====
-- The query builders of libs/utils/src/base.repository.ts and of the two repositories in
-- apps/auth/src/app/database/repositories. A query is what is called on typeorm's builder, in
-- order.
pub mod Laws
pub mod Reads
pub mod Statements
pub mod Parameters
use trash.Prelude.{
  ℕ, zero, suc, Bool, true, false, not, ◌&&◌, ◌||◌, Option, none, some, List, [], ◌∷◌, ◌++◌, Text,
  codes, truthy, if◌then◌else◌,
}
use trash.Entity.{OperationType}

pub data JoinType : Type 0 where
  inner left : JoinType

pub data OrderType : Type 0 where
  asc desc : OrderType

-- `user_id`, as the column of either table.
pub data Call : Type 0 where
  create : Text → Bool → Call
  where_email : Text → Call
  where_user_id : ℕ → Call
  where_type : OperationType → Call
  where_token : Text → Call
  where_ttl_until : ℕ → Call
  join_one : JoinType → Text → Text → Text → Call
  set_lock : List Text → Call
  cache : Call
  take_skip : Option ℕ → Option ℕ → Call
  order_by : Text → OrderType → Call
  take_rows : ℕ → Call
  where_same : Text → Text → Text → Call

abbrev pub Query : Type 0
Query = List Call

-- `IBaseRepositoryJoin`
pub record Join (Table : Type 0) : Type 0 where
  pub left_tables : Option (List Table)
  pub inner_tables : Option (List Table)

-- `lock: Lockable[] | boolean`
pub data Lock : Type 0 where
  flag : Bool → Lock
  tables : List Text → Lock

-- `IBaseRepositoryGetOne` and `IBaseRepositoryGetMany`; `cached` is whether `cache` is truthy.
pub record Options (Filter Table Sort : Type 0) : Type 0 where
  pub filter : Option Filter
  pub join : Option (Join Table)
  pub lock : Option Lock
  pub query_runner : Bool
  pub cached : Bool
  pub pagination : Option (Option ℕ × Option ℕ)
  pub sort : Option (List Sort)

-- What a repository overrides, and `metadata.tableName`.
pub record Repository (Filter Table Sort : Type 0) : Type 0 where
  pub table_name : Text
  pub filter_build : Query → Filter → Query
  pub join_build : Text → Query → List Table → JoinType → Query
  pub sort_build : Query → List Sort → Query

abbrev pub is_locked : Option Lock → Bool
is_locked none = false
is_locked (some (flag b)) = b
is_locked (some (tables ts)) = true

abbrev pub locked_tables : Text → Option Lock → List Text
locked_tables name (some (tables ts)) = ts
locked_tables name _ = name ∷ []

abbrev pub joined {ℓ} :
    {Table : Type ℓ}
    → (Query → List Table → JoinType → Query)
    → Query
    → Option (List Table)
    → JoinType
    → Query
joined build q none type = q
joined build q (some ts) type = build q ts type

abbrev pub tables_of {ℓ κ} : {A : Type ℓ} {B : Type κ} → (A → Option B) → Option A → Option B
tables_of f none = none
tables_of f (some j) = f j

abbrev paged : Query → Option (Option ℕ × Option ℕ) → Query
paged q none = q
paged q (some (take, skip)) = q ++ take_skip take skip ∷ []

module _ {Filter Table Sort : Type 0} where
  abbrev pub filtered : Repository Filter Table Sort → Query → Option Filter → Query
  filtered repository q none = q
  filtered repository q (some f) = repository.filter_build q f

  abbrev pub name_of : Repository Filter Table Sort → Option Text → Text
  name_of repository none = repository.table_name
  name_of repository (some []) = repository.table_name
  name_of repository (some (c ∷ s)) = c ∷ s

  -- The start of `_commonBuild`: the filter and the joins.
  abbrev pub selected :
      Repository Filter Table Sort → Options Filter Table Sort → Option Text → Query
  selected repository options alias =
      let build = repository.join_build (name_of repository alias) in
      let start = create (name_of repository alias) options.query_runner ∷ [] in
      let narrowed = filtered repository start options.filter in
      let met = joined build narrowed (tables_of (λ j. j.inner_tables) options.join) inner in
      joined build met (tables_of (λ j. j.left_tables) options.join) left

  -- Its end: the lock and the cache.
  abbrev pub locked : Repository Filter Table Sort → Options Filter Table Sort → Query → Query
  locked repository options q =
      if options.query_runner && is_locked options.lock
      then q ++ set_lock (locked_tables repository.table_name options.lock) ∷ []
      else q

  abbrev pub with_cache : Options Filter Table Sort → Query → Query
  with_cache options q =
      if options.cached && not (options.query_runner || is_locked options.lock)
      then q ++ cache ∷ []
      else q

  -- `_commonBuild`, with the alias that the caller gives, or the table's name.
  unfoldable pub common_build :
      Repository Filter Table Sort → Options Filter Table Sort → Option Text → Query
  common_build repository options alias =
      with_cache options (locked repository options (selected repository options alias))

  abbrev sorted : Repository Filter Table Sort → Query → Option (List Sort) → Query
  sorted repository q none = q
  sorted repository q (some s) = repository.sort_build q s

  -- `_manyBuild`
  unfoldable pub many_build :
      Repository Filter Table Sort → Query → Options Filter Table Sort → Query
  many_build repository q options = sorted repository (paged q options.pagination) options.sort

-- `IUserFilter`
pub record UserFilter : Type 0 where
  pub id : Option ℕ
  pub email : Option Text

abbrev pub and_text : (Text → Call) → Option Text → Query → Query
and_text f none q = q
and_text f (some []) q = q
and_text f (some (c ∷ s)) q = q ++ f (c ∷ s) ∷ []

-- A number that is there and is not 0.
abbrev pub and_number : (ℕ → Call) → Option ℕ → Query → Query
and_number f none q = q
and_number f (some zero) q = q
and_number f (some (suc n)) q = q ++ f (suc n) ∷ []

-- `UserRepository._filterBuild`
unfoldable pub user_filter_build : Query → UserFilter → Query
user_filter_build q f = and_number where_user_id f.id (and_text where_email f.email q)

-- `IUserOperationsFilter`
pub record UserOperationsFilter : Type 0 where
  pub user_id : Option ℕ
  pub type : Option OperationType
  pub token : Option Text
  pub ttl : Option ℕ

abbrev pub and_some {ℓ} : {A : Type ℓ} → (A → Call) → Option A → Query → Query
and_some f none q = q
and_some f (some a) q = q ++ f a ∷ []

-- `UserOperationRepository._filterBuild`
unfoldable pub operation_filter_build : Query → UserOperationsFilter → Query
operation_filter_build q f = and_some where_ttl_until f.ttl (
    and_text where_token f.token
      (and_some where_type f.type (and_number where_user_id f.user_id q)))

pub data UserOperationJoinable : Type 0 where
  join_users : UserOperationJoinable

-- `UserOperationRepository._joinBuild`: the loop returns in its first round.
unfoldable pub operation_join_build : Text → Query → List UserOperationJoinable → JoinType → Query
operation_join_build alias q [] type = q
operation_join_build alias q (join_users ∷ ts) type =
    q
    ++ join_one type (alias ++ codes ".users") (codes "users")
        (alias ++ codes ".user_id = users.id")
      ∷ []

-- `UserOperationRepository._sortBuild`
unfoldable pub operation_sort_build : Query → List (Text × OrderType) → Query
operation_sort_build q [] = q
operation_sort_build q ((by_, order) ∷ sorts) =
    operation_sort_build (q ++ order_by by_ order ∷ []) sorts

unfoldable pub users_operations :
    Repository UserOperationsFilter UserOperationJoinable (Text × OrderType)
unfolding operation_filter_build operation_join_build operation_sort_build
users_operations = record {
  table_name = codes "users_operations";
  filter_build = operation_filter_build;
  join_build = operation_join_build;
  sort_build = operation_sort_build;
}
