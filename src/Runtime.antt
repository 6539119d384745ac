-- ===== src/Runtime.antt =====
-- What the application uses and does not implement: tables behind typeorm, the cache behind
-- cache-manager, bcrypt, jsonwebtoken, uuid, JSON and the Unicode tables of `toLowerCase`. Each is
-- a field of `Runtime`, with the documented behaviour that the theorems rest on.
pub mod Finds
pub mod ListTable
pub mod SampleJson
pub mod Sample
use trash.Prelude.{
  ℕ, ◌+◌, ◌*◌, ◌/◌, ◌≡◌, Bool, true, false, ◌&&◌, Option, none, some, List, [], ◌∷◌, Text, ltb,
  ◌==◌, text_eq, codes, if◌then◌else◌,
}
use trash.Entity.{UserRow, OperationRow}

-- A table with a primary key. `find` is a `findOne`: which of the matching rows it returns is not
-- specified. `put` stores a row under its key.
pub record Table (Row : Type 0) (key : Row → ℕ) : Type 1 where
  pub Rows : Type 0
  pub get : ℕ → Rows → Option Row
  pub put : Row → Rows → Rows
  pub delete : ℕ → Rows → Rows
  pub find : (Row → Bool) → Rows → Option Row
  pub count : (Row → Bool) → Rows → ℕ
  pub get-put :
      (j : ℕ) (r : Row) (t : Rows) → get j (put r t) ≡ (if key r == j then some r else get j t)
  pub get-delete : (j k : ℕ) (t : Rows) → get j (delete k t) ≡ (if k == j then none else get j t)
  pub find-matches : (p : Row → Bool) (t : Rows) (r : Row) → find p t ≡ some r → p r ≡ true
  pub find-stored :
      (p : Row → Bool) (t : Rows) (r : Row) → find p t ≡ some r → get (key r) t ≡ some r
  pub find-misses :
      (p : Row → Bool) (t : Rows) (r : Row) (k : ℕ)
      → find p t ≡ none
      → get k t ≡ some r
      → p r ≡ false
  pub count-none : (p : Row → Bool) (t : Rows) → find p t ≡ none → count p t ≡ 0
  pub count-some :
      (p : Row → Bool) (t : Rows) (r : Row) → find p t ≡ some r → (count p t == 0) ≡ false

-- Whether an entry that was set at `n` (milliseconds) for `ttl` seconds is still there at `t`.
abbrev pub alive : ℕ → ℕ → Option ℕ → Bool
alive t n none = true
alive t n (some ttl) = ltb t (n + 1000 * ttl)

-- The cache, behind cache-manager-redis-store. The store writes a text as JSON, `encode`, and reads
-- it back so; `set_nx` is the Redis client's own `SETNX`, whose text is written as it stands. `del`
-- takes one key, literally. An entry that
-- is set with no lifetime has that which the module that makes the cache was given, or its own default.
pub record CacheStore : Type 1 where
  pub Entries : Type 0
  pub default_ttl : Option ℕ
  pub get : ℕ → Text → Entries → Option Text
  pub set : ℕ → Text → Text → Option ℕ → Entries → Entries
  pub set_nx : ℕ → Text → Text → Entries → Entries
  pub encode : Text → Text
  pub del : Text → Entries → Entries
  pub reset : Entries → Entries
  pub get-set :
      (t n : ℕ) (j k v : Text) (ttl : Option ℕ) (c : Entries)
      → get t j (set n k v ttl c)
        ≡ (if text_eq k j then (if alive t n ttl then some v else none) else get t j c)
  pub get-set_nx :
      (t n : ℕ) (j k v : Text) (c : Entries)
      → get n k c ≡ none
      → get t j (set_nx n k (encode v) c) ≡ (if text_eq k j then some v else get t j c)
  pub get-del :
      (t : ℕ) (j k : Text) (c : Entries)
      → get t j (del k c) ≡ (if text_eq k j then none else get t j c)
  pub get-reset : (t : ℕ) (j : Text) (c : Entries) → get t j (reset c) ≡ none

-- `Session` of session.service.ts. A date is the number of its milliseconds.
pub record Session : Type 0 where
  pub id : Option Text
  pub user_id : ℕ
  pub created_at : Option ℕ
  pub updated_at : Option ℕ

-- The values that the application writes as JSON.
pub data Json : Type 0 where
  session : Session → Json
  string : Text → Json

pub data Algorithm : Type 0 where
  hs256 rs256 : Algorithm

abbrev pub allows_hs256 : List Algorithm → Bool
allows_hs256 [] = false
allows_hs256 (hs256 ∷ rest) = true
allows_hs256 (rs256 ∷ rest) = allows_hs256 rest

abbrev pub has_prefix_2y : Text → Bool
has_prefix_2y (a ∷ b ∷ c ∷ s) = a == b'$' && b == b'2' && c == b'y'
has_prefix_2y _ = false

pub record Runtime : Type 1 where
  pub users : Table UserRow (λ r. r.id)
  pub operations : Table OperationRow (λ r. r.id)
  pub cache : CacheStore
  -- `toLowerCase`
  pub lower : Text → Text
  pub lower_idem : (s : Text) → lower (lower s) ≡ lower s
  -- bcrypt: `hashSync` of a password and a salt, `compareSync` of a password and a hash
  pub hash : Text → Text → Text
  pub matches : Text → Text → Bool
  pub matches-hash : (p s : Text) → matches p (hash p s) ≡ true
  pub hash_prefix : (p s : Text) → has_prefix_2y (hash p s) ≡ false
  pub hash_not_empty : (p s : Text) → text_eq [] (hash p s) ≡ false
  -- the n-th random value of the run
  pub uuid : ℕ → Text
  pub salt : ℕ → Text
  -- no UUID is the text `*`
  pub uuid_not_star : (n : ℕ) → text_eq (codes "*") (uuid n) ≡ false
  pub stringify : Json → Text
  pub parse : Text → Option Json
  pub encode-stringify : (t : Text) → cache.encode t ≡ stringify (string t)
  pub parse-stringify : (j : Json) → parse (stringify j) ≡ some j
  pub stringify_not_empty : (j : Json) → text_eq [] (stringify j) ≡ false
  -- jsonwebtoken: a token signed with a secret, by HS256, for a lifetime in seconds
  pub sign : Text → ℕ → Text → ℕ → Text
  pub verify : List Algorithm → Text → ℕ → Text → Option Text
  pub verify-sign :
      (algs : List Algorithm) (secret id : Text) (lifetime n t : ℕ)
      → verify algs secret t (sign secret lifetime id n)
        ≡ (if allows_hs256 algs && ltb (t / 1000) (n / 1000 + lifetime) then some id else none)
