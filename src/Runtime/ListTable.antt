-- ===== src/Runtime/ListTable.antt =====
-- A table as a list of rows, newest first.
use trash.Prelude.{
  ℕ, ◌≡◌, refl, Bool, true, false, Option, none, some, List, [], ◌∷◌, arith, ◌==◌, ==_iff,
  if◌then◌else◌,
}
use trash.Runtime.{Table}

module _ {Row : Type 0} (key : Row → ℕ) where
  abbrev pub get : ℕ → List Row → Option Row
  get k [] = none
  get k (r ∷ t) = if key r == k then some r else get k t

  abbrev pub delete : ℕ → List Row → List Row
  delete k [] = []
  delete k (r ∷ t) = if key r == k then delete k t else r ∷ delete k t

  abbrev accept : (Row → Bool) → Option Row → Option Row
  accept p none = none
  accept p (some r) = if p r then some r else none

  abbrev first : Option Row → Option Row → Option Row
  first (some r) o = some r
  first none o = o

  -- The first key of `rest` whose row in `t` passes the test.
  abbrev pub scan : (Row → Bool) → List Row → List Row → Option Row
  scan p t [] = none
  scan p t (r ∷ rest) = first (accept p (get (key r) t)) (scan p t rest)

  abbrev pub count : (Row → Bool) → List Row → ℕ
  count p t = elim (scan p t t) [ none ↦ 0 | some r ↦ 1 ]

  pub get-put :
      (j : ℕ) (r : Row) (t : List Row) → get j (r ∷ t) ≡ (if key r == j then some r else get j t)
  get-put j r t = refl

  pub get-delete :
      (j k : ℕ) (t : List Row) → get j (delete k t) ≡ (if k == j then none else get j t)
  get-delete j k [] = ground arith
  get-delete j k (r ∷ t) = ground (arith, get-delete j k t)

  get-key : (k : ℕ) (t : List Row) (r : Row) → get k t ≡ some r → key r ≡ k
  get-key k [] s h = ground arith
  get-key k (r ∷ t) s h = ground (arith, get-key k t s)

  pub scan-matches :
      (p : Row → Bool) (t rest : List Row) (r : Row) → scan p t rest ≡ some r → p r ≡ true
  scan-matches p t [] s h = ground arith
  scan-matches p t (r ∷ rest) s h = ground (arith, scan-matches p t rest s)

  pub scan-stored :
      (p : Row → Bool) (t rest : List Row) (r : Row)
      → scan p t rest ≡ some r
      → get (key r) t ≡ some r
  scan-stored p t [] s h = ground arith
  scan-stored p t (r ∷ rest) s h = ground (arith, scan-stored p t rest s, get-key (key r) t s)

  pub scan-misses :
      (p : Row → Bool) (t rest : List Row) (r s : Row) (k : ℕ)
      → scan p t rest ≡ none
      → get k rest ≡ some s
      → get k t ≡ some r
      → p r ≡ false
  scan-misses p t [] r s k h m g = ground arith
  scan-misses p t (x ∷ rest) r s k h m g =
      ground (arith, scan-misses p t rest r s k, ==_iff (key x) k)

  pub count-none : (p : Row → Bool) (t : List Row) → scan p t t ≡ none → count p t ≡ 0
  count-none p t h = ground arith

  pub count-some :
      (p : Row → Bool) (t : List Row) (r : Row) → scan p t t ≡ some r → (count p t == 0) ≡ false
  count-some p t r h = ground arith

  abbrev pub list_table : Table Row key
  list_table = record {
    Rows = List Row;
    get = get;
    put = λ r t. r ∷ t;
    delete = delete;
    find = λ p t. scan p t t;
    count = count;
    get-put = get-put;
    get-delete = get-delete;
    find-matches = λ p t. scan-matches p t t;
    find-stored = λ p t. scan-stored p t t;
    find-misses = λ p t r k h g. scan-misses p t t r r k h g g;
    count-none = count-none;
    count-some = count-some;
  }
