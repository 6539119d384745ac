-- ===== src/Query/Statements/Laws.antt =====
-- The connection and the cache of a `findOne` and a `find`, and the properties of an `update`.
use trash.Prelude.{
  not, ◌≡◌, refl, Bool, false, ◌&&◌, ◌||◌, Option, none, some, List, [], ◌∷◌, ◌++◌, Text, arith,
}
use trash.Query.Statements.{
  FindOptions, Sought, nothing, by_options, by_id, Statement, find_row, find_rows, by_runner_of,
  find_one, find, defined,
}

module _ {Where : Type 0} where
  -- Whether the options, which may be missing, ask for the cache.
  abbrev cached_of : Option (FindOptions Where) → Bool
  cached_of none = false
  cached_of (some o) = o.cached

  -- Whether they do, and neither a query runner nor a lock is there.
  abbrev fit_for_cache : Option (FindOptions Where) → Bool
  fit_for_cache none = false
  fit_for_cache (some o) = o.cached && not (o.query_runner || o.lock)

module _ {Key Where : Type 0} where
  -- The options that count for a `findOne`.
  abbrev pub effective : Sought Key Where → Option (FindOptions Where) → Option (FindOptions Where)
  effective (by_options params) options = some params
  effective nothing options = options
  effective (by_id id) options = options

module _ {Key Where V : Type 0} where
  -- Whether the statement asks for the cache.
  abbrev pub asks_cache : Statement Key Where V → Bool
  asks_cache (find_row sought options) = cached_of (effective sought options)
  asks_cache (find_rows options) = cached_of options
  asks_cache _ = false

module _ {Key Where : Type 0} where
  -- Over the options that count, a `findOne` goes by the query runner just when there is one, and
  -- asks for the cache just when they do and there is neither a query runner nor a lock.
  pub find_one-cache :
      (V : Type 0)
      → (sought : Sought Key Where) → (options : Option (FindOptions Where))
      → ((find_one {V = V} sought options).by_runner ≡ by_runner_of (effective sought options))
        × (asks_cache (find_one {V = V} sought options).statement
            ≡ fit_for_cache (effective sought options))
  unfolding find_one
  find_one-cache V (by_options params) options = (refl, ground arith)
  find_one-cache V nothing none = (refl, refl)
  find_one-cache V nothing (some o) = (refl, ground arith)
  find_one-cache V (by_id id) none = (refl, refl)
  find_one-cache V (by_id id) (some o) = (refl, ground arith)

module _ {Where : Type 0} where
  -- The same of a `find`.
  pub find-cache :
      (Key V : Type 0)
      → (options : Option (FindOptions Where))
      → ((find {Key = Key} {V = V} options).by_runner ≡ by_runner_of options)
        × (asks_cache (find {Key = Key} {V = V} options).statement ≡ fit_for_cache options)
  unfolding find
  find-cache Key V none = (refl, refl)
  find-cache Key V (some o) = (refl, ground arith)

module _ {V : Type 0} where
  -- What is sent of an `update` are the properties that have a value, in their order.
  pub defined-append :
      (xs ys : List (Text × Option V)) → defined (xs ++ ys) ≡ defined xs ++ defined ys
  unfolding defined
  defined-append [] ys = refl
  defined-append ((p, none) ∷ xs) ys = defined-append xs ys
  defined-append ((p, some v) ∷ xs) ys = rw (defined-append xs ys) refl
