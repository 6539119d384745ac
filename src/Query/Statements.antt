-- ===== src/Query/Statements.antt =====
-- `findOne`, `find`, `update` and `delete` of libs/utils/src/base.repository.ts: which connection a
-- statement goes by, and what is sent.
pub mod Laws
use mathlib.Core.Option
use trash.Prelude.{
  Bool, true, false, ◌&&◌, ◌||◌, Option, none, some, List, [], ◌∷◌, Text, if◌then◌else◌,
}

-- `FindManyOptions` and `FindOneOptions`, as far as `find` and `findOne` look at them;
-- whether there is a lock, and whether `cache` is truthy.
pub record FindOptions (Where : Type 0) : Type 0 where
  pub where_ : Option Where
  pub query_runner : Bool
  pub lock : Bool
  pub cached : Bool

-- The first argument of `findOne`: `undefined`, an object of options, or the id of a row, which
-- is not an object.
pub data Sought (Key Where : Type 0) : Type 0 where
  nothing : Sought Key Where
  by_options : FindOptions Where → Sought Key Where
  by_id : Key → Sought Key Where

pub data Statement (Key Where V : Type 0) : Type 0 where
  find_row : Sought Key Where → Option (FindOptions Where) → Statement Key Where V
  find_rows : Option (FindOptions Where) → Statement Key Where V
  update_rows : Where → List (Text × V) → Statement Key Where V
  delete_rows : Where → Statement Key Where V

-- By the manager of the query runner, or by the repository's own connection.
pub record Sent (Key Where V : Type 0) : Type 0 where
  pub by_runner : Bool
  pub statement : Statement Key Where V

module _ {Where : Type 0} where
  -- `delete options.cache`, with its condition.
  abbrev without_cache : FindOptions Where → FindOptions Where
  without_cache o =
      if o.cached && (o.query_runner || o.lock) then record o { cached = false } else o

  -- `options?.queryRunner`
  abbrev by_runner_of : Option (FindOptions Where) → Bool
  by_runner_of none = false
  by_runner_of (some o) = o.query_runner

module _ {V : Type 0} where
  -- The loop that deletes the properties that are `undefined`.
  unfoldable pub defined : List (Text × Option V) → List (Text × V)
  defined [] = []
  defined ((property, none) ∷ properties) = defined properties
  defined ((property, some value) ∷ properties) = (property, value) ∷ defined properties

module _ {Key Where V : Type 0} where
  unfoldable pub find_one : Sought Key Where → Option (FindOptions Where) → Sent Key Where V
  find_one (by_options params) options = record {
    by_runner = params.query_runner;
    statement = find_row (by_options (without_cache params)) none;
  }
  find_one nothing options = record {
    by_runner = by_runner_of options;
    statement = find_row nothing (Option.map without_cache options);
  }
  find_one (by_id id) options = record {
    by_runner = by_runner_of options;
    statement = find_row (by_id id) (Option.map without_cache options);
  }

  unfoldable pub find : Option (FindOptions Where) → Sent Key Where V
  find none = record { by_runner = false; statement = find_rows none }
  find (some o) = record {
    by_runner = o.query_runner;
    statement = find_rows (some (without_cache o));
  }

  unfoldable pub update : Where → List (Text × Option V) → Bool → Sent Key Where V
  update criteria partial_entity query_runner = record {
    by_runner = query_runner;
    statement = update_rows criteria (defined partial_entity);
  }

  unfoldable pub delete : Where → Bool → Sent Key Where V
  delete criteria query_runner = record {
    by_runner = query_runner;
    statement = delete_rows criteria;
  }
