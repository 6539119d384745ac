-- ===== src/Runtime/Sample.antt =====
-- A runtime that has all the laws: tables and a cache as lists, and texts that stay readable.
use trash.Prelude.{
  ℕ, ◌+◌, ◌/◌, ◌≡◌, refl, Bool, true, false, ◌&&◌, Option, none, some, List, [], ◌∷◌, ◌++◌, arith,
  ◌==◌, leb, ltb, Text, codes, text_eq, text_eq_iff, text_eq_refl, ==_refl, if◌then◌else◌,
}
use trash.Runtime.{Runtime, CacheStore, Algorithm, alive, allows_hs256, has_prefix_2y}
use trash.Runtime.ListTable.{list_table}
use trash.Runtime.SampleJson.{stringify, parse, parse-stringify, stringify_not_empty}

-- A cache entry: its key, its text, and the time and the length of its life.
abbrev Entry : Type 0
Entry = Text × Text × ℕ × Option ℕ

abbrev live_text : ℕ → Entry → Option Text
live_text t (k, v, n, ttl) = if alive t n ttl then some v else none

abbrev cache_get : ℕ → Text → List Entry → Option Text
cache_get t j [] = none
cache_get t j (x ∷ c) = if text_eq x.0 j then live_text t x else cache_get t j c

abbrev cache_del : Text → List Entry → List Entry
cache_del k [] = []
cache_del k (x ∷ c) = if text_eq x.0 k then cache_del k c else x ∷ cache_del k c

pub get-del :
    (t : ℕ) (j k : Text) (c : List Entry)
    → cache_get t j (cache_del k c) ≡ (if text_eq k j then none else cache_get t j c)
get-del t j k [] = ground arith
get-del t j k (x ∷ c) =
    ground (arith, get-del t j k c, text_eq_iff x.0 k, text_eq_iff x.0 j, text_eq_iff k j)

pub get-set :
    (t n : ℕ) (j k v : Text) (ttl : Option ℕ) (c : List Entry)
    → cache_get t j ((k, v, n, ttl) ∷ c)
      ≡ (if text_eq k j then (if alive t n ttl then some v else none) else cache_get t j c)
get-set t n j k v ttl c = refl

-- The JSON of a text has a tag in front.
abbrev encode : Text → Text
encode v = 0 ∷ v

abbrev decode : Text → Text
decode [] = []
decode (c ∷ v) = v

abbrev set_nx_on : Option Text → ℕ → Text → Text → List Entry → List Entry
set_nx_on none n k raw c = (k, decode raw, n, none) ∷ c
set_nx_on (some _) n k raw c = c

pub get-set_nx :
    (t n : ℕ) (j k v : Text) (c : List Entry)
    → cache_get n k c ≡ none
    → cache_get t j (set_nx_on (cache_get n k c) n k (encode v) c)
      ≡ (if text_eq k j then some v else cache_get t j c)
get-set_nx t n j k v c h = rw h

pub get-reset : (t : ℕ) (j : Text) (c : List Entry) → cache_get t j [] ≡ none
get-reset t j c = refl

abbrev list_cache : CacheStore
list_cache = record {
  Entries = List Entry;
  default_ttl = some 5;
  get = cache_get;
  set = λ n k v ttl c. (k, v, n, ttl) ∷ c;
  set_nx = λ n k raw c. set_nx_on (cache_get n k c) n k raw c;
  encode = encode;
  del = cache_del;
  reset = λ c. [];
  get-set = get-set;
  get-set_nx = get-set_nx;
  get-del = get-del;
  get-reset = get-reset;
}

abbrev lower_unit : ℕ → ℕ
lower_unit c = if leb 65 c && leb c 90 then c + 32 else c

lower_unit_idem : (c : ℕ) → lower_unit (lower_unit c) ≡ lower_unit c
lower_unit_idem c = ground arith

abbrev lower : Text → Text
lower [] = []
lower (c ∷ s) = lower_unit c ∷ lower s

pub lower_idem : (s : Text) → lower (lower s) ≡ lower s
lower_idem [] = refl
lower_idem (c ∷ s) = cc (lower_unit_idem c, lower_idem s)

-- A hash is `#` and the password.
abbrev hash : Text → Text → Text
hash p s = b'#' ∷ p

abbrev matches : Text → Text → Bool
matches p [] = false
matches p (c ∷ h) = text_eq p h

pub matches-hash : (p s : Text) → matches p (hash p s) ≡ true
matches-hash p s = text_eq_refl p

pub hash_prefix : (p s : Text) → has_prefix_2y (hash p s) ≡ false
hash_prefix [] s = refl
hash_prefix (a ∷ []) s = refl
hash_prefix (a ∷ b ∷ p) s = refl

abbrev numbered : ℕ → ℕ → Text
numbered tag n = tag ∷ n ∷ []

pub hash_not_empty : (p s : Text) → text_eq [] (hash p s) ≡ false
unfolding text_eq
hash_not_empty p s = refl

pub uuid_not_star : (n : ℕ) → text_eq (codes "*") (numbered b'u' n) ≡ false
unfolding text_eq
uuid_not_star n = refl

-- A token is the end of its life, the secret and the payload.
abbrev sign : Text → ℕ → Text → ℕ → Text
sign secret lifetime id n = (n / 1000 + lifetime) ∷ (secret ++ id)

abbrev strip : Text → Text → Option Text
strip [] t = some t
strip (c ∷ s) [] = none
strip (c ∷ s) (d ∷ t) = if c == d then strip s t else none

strip-append : (s t : Text) → strip s (s ++ t) ≡ some t
strip-append [] t = refl
strip-append (c ∷ s) t = rw ==_refl (strip-append s t)

abbrev verify : List Algorithm → Text → ℕ → Text → Option Text
verify algs secret t [] = none
verify algs secret t (end ∷ rest) =
    if allows_hs256 algs && ltb (t / 1000) end then strip secret rest else none

pub verify-sign :
    (algs : List Algorithm) (secret id : Text) (lifetime n t : ℕ)
    → verify algs secret t (sign secret lifetime id n)
      ≡ (if allows_hs256 algs && ltb (t / 1000) (n / 1000 + lifetime) then some id else none)
verify-sign algs secret id lifetime n t = rw (strip-append secret id)

instance abbrev pub sample : Runtime
sample = record {
  users = list_table (λ r. r.id);
  operations = list_table (λ r. r.id);
  cache = list_cache;
  lower = lower;
  lower_idem = lower_idem;
  hash = hash;
  matches = matches;
  matches-hash = matches-hash;
  hash_prefix = hash_prefix;
  hash_not_empty = hash_not_empty;
  uuid = numbered b'u';
  salt = numbered b's';
  uuid_not_star = uuid_not_star;
  stringify = stringify;
  parse = parse;
  encode-stringify = λ t. refl;
  parse-stringify = parse-stringify;
  stringify_not_empty = stringify_not_empty;
  sign = sign;
  verify = verify;
  verify-sign = verify-sign;
}
