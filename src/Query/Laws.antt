-- ===== src/Query/Laws.antt =====
-- Locks and caches of the queries for operations.
use trash.Prelude.{
  ℕ, zero, suc, ◌≡◌, refl, sym, ap, if◌then◌else◌, ◌∙◌, Bool, true, false, not, ◌&&◌, ◌||◌, Option,
  none, some, List, [], ◌∷◌, ◌++◌, Text, arith,
}
use trash.Entity.{OperationType}
use trash.Query.{
  Call, create, where_user_id, where_type, where_token, where_ttl_until, join_one, set_lock, cache,
  Query, Options, is_locked, common_build, users_operations, UserOperationsFilter,
  UserOperationJoinable, operation_filter_build, operation_join_build, OrderType, JoinType, inner,
  left, name_of, tables_of, joined, filtered, selected, locked, locked_tables, with_cache, and_text,
  and_some, and_number,
}

abbrev pub is_lock : Call → Bool
is_lock (set_lock ts) = true
is_lock _ = false

abbrev pub is_cache : Call → Bool
is_cache cache = true
is_cache _ = false

-- Whether a call of that sort was made.
abbrev pub has : (Call → Bool) → Query → Bool
has p [] = false
has p (c ∷ q) = p c || has p q

has-append : (p : Call → Bool) (q : Query) (c : Call) → has p (q ++ c ∷ []) ≡ has p q || p c
has-append p [] c = ground arith
has-append p (x ∷ q) c = let ih = has-append p q c in ground arith

-- The calls that neither lock nor cache.
record Plain (p : Call → Bool) : Type 0 where
  user_id : (n : ℕ) → p (where_user_id n) ≡ false
  type : (t : OperationType) → p (where_type t) ≡ false
  token : (t : Text) → p (where_token t) ≡ false
  ttl : (n : ℕ) → p (where_ttl_until n) ≡ false
  joins : (t : JoinType) (a b c : Text) → p (join_one t a b c) ≡ false

or_false : (b : Bool) → b || false ≡ b
or_false true = refl
or_false false = refl

has-plain : (p : Call → Bool) (q : Query) (c : Call) → p c ≡ false → has p (q ++ c ∷ []) ≡ has p q
has-plain p q c h = has-append p q c ∙ ap (λ b. has p q || b) h ∙ or_false (has p q)

has-and_text :
    (p : Call → Bool) (f : Text → Call)
    → ((t : Text) → p (f t) ≡ false)
    → (o : Option Text) (q : Query) → has p (and_text f o q) ≡ has p q
has-and_text p f h none q = refl
has-and_text p f h (some []) q = refl
has-and_text p f h (some (c ∷ s)) q = has-plain p q (f (c ∷ s)) (h (c ∷ s))

has-and_number :
    (p : Call → Bool) (f : ℕ → Call)
    → ((t : ℕ) → p (f t) ≡ false)
    → (o : Option ℕ) (q : Query) → has p (and_number f o q) ≡ has p q
has-and_number p f h none q = refl
has-and_number p f h (some zero) q = refl
has-and_number p f h (some (suc n)) q = has-plain p q (f (suc n)) (h (suc n))

has-and_some {ℓ} :
    {A : Type ℓ} (p : Call → Bool) (f : A → Call)
    → ((t : A) → p (f t) ≡ false)
    → (o : Option A) (q : Query) → has p (and_some f o q) ≡ has p q
has-and_some p f h none q = refl
has-and_some p f h (some a) q = has-plain p q (f a) (h a)

has-filter :
    (p : Call → Bool)
    → Plain p
    → (q : Query) (f : UserOperationsFilter) → has p (operation_filter_build q f) ≡ has p q
unfolding operation_filter_build
has-filter p h q f =
    has-and_some p where_ttl_until h.ttl f.ttl _
    ∙ has-and_text p where_token h.token f.token _
    ∙ has-and_some p where_type h.type f.type _
    ∙ has-and_number p where_user_id h.user_id f.user_id q

has-join :
    (p : Call → Bool)
    → Plain p
    → (alias : Text) (q : Query) (ts : List UserOperationJoinable) (type : JoinType)
    → has p (operation_join_build alias q ts type) ≡ has p q
unfolding operation_join_build
has-join p h alias q [] type = refl
has-join p h alias q (UserOperationJoinable.join_users ∷ ts) type =
    has-plain p q _ (h.joins _ _ _ _)

abbrev pub OperationOptions : Type 0
OperationOptions = Options UserOperationsFilter UserOperationJoinable (Text × OrderType)

module _ (p : Call → Bool) (plain : Plain p) where
  has-joined :
      (alias : Text) (q : Query) (ts : Option (List UserOperationJoinable)) (type : JoinType)
      → has p (joined (operation_join_build alias) q ts type) ≡ has p q
  has-joined alias q none type = refl
  has-joined alias q (some ts) type = has-join p plain alias q ts type

  has-filtered :
      (q : Query) (f : Option UserOperationsFilter)
      → has p (filtered users_operations q f) ≡ has p q
  unfolding users_operations operation_filter_build
  has-filtered q none = refl
  has-filtered q (some f) = has-filter p plain q f

  has-selected :
      ((t : Text) (b : Bool) → p (create t b) ≡ false)
      → (o : OperationOptions) (alias : Option Text)
      → has p (selected users_operations o alias) ≡ false
  unfolding users_operations operation_join_build operation_filter_build
  has-selected h o alias =
      let name = name_of users_operations alias in
      let start = create name o.query_runner ∷ [] in
      let narrowed = filtered users_operations start o.filter in
      let inners = tables_of (λ j. j.inner_tables) o.join in
      let lefts = tables_of (λ j. j.left_tables) o.join in
      let met = joined (operation_join_build name) narrowed inners inner in
      has-joined name met lefts left
      ∙ has-joined name narrowed inners inner
      ∙ has-filtered start o.filter
      ∙ or_false _
      ∙ h name o.query_runner

lock-Plain : Plain is_lock
lock-Plain = record {
  user_id = λ _. refl;
  type = λ _. refl;
  token = λ _. refl;
  ttl = λ _. refl;
  joins = λ _ _ _ _. refl;
}

cache-Plain : Plain is_cache
cache-Plain = record {
  user_id = λ _. refl;
  type = λ _. refl;
  token = λ _. refl;
  ttl = λ _. refl;
  joins = λ _ _ _ _. refl;
}

pub record Exclusive (o : OperationOptions) (alias : Option Text) : Type 0 where
  pub locks :
      has is_lock (common_build users_operations o alias) ≡ o.query_runner && is_locked o.lock
  pub caches :
      has is_cache (common_build users_operations o alias)
      ≡ o.cached && not (o.query_runner || is_locked o.lock)

has-when :
    (p : Call → Bool) (b : Bool) (q : Query) (c : Call)
    → has p (if b then q ++ c ∷ [] else q) ≡ has p q || (b && p c)
has-when p true q c = has-append p q c
has-when p false q c = sym (or_false (has p q))

ending :
    (p : Call → Bool) (o : OperationOptions) (q : Query)
    → has p (with_cache o (locked users_operations o q))
      ≡ (has p q
          || ((o.query_runner && is_locked o.lock)
              && p (set_lock (locked_tables users_operations.table_name o.lock))))
        || ((o.cached && not (o.query_runner || is_locked o.lock)) && p cache)
ending p o q =
    let l = set_lock (locked_tables users_operations.table_name o.lock) in
    let taken = locked users_operations o q in
    has-when p (o.cached && not (o.query_runner || is_locked o.lock)) taken cache
    ∙ ap (λ b. b || ((o.cached && not (o.query_runner || is_locked o.lock)) && p cache))
        (has-when p (o.query_runner && is_locked o.lock) q l)

first_of : (a b c : Bool) → a ≡ false → (a || (b && true)) || (c && false) ≡ b
first_of a b c h = ground arith

second_of : (a b c : Bool) → a ≡ false → (a || (b && false)) || (c && true) ≡ c
second_of a b c h = ground arith

-- A query for operations sets a lock just when the options ask for one and name a query runner, and
-- asks for the cache just when the options do and ask for neither a lock nor a query runner.
pub common_build-Exclusive : (o : OperationOptions) (alias : Option Text) → Exclusive o alias
unfolding common_build
common_build-Exclusive o alias =
    let q = selected users_operations o alias in
    let l = o.query_runner && is_locked o.lock in
    let c = o.cached && not (o.query_runner || is_locked o.lock) in
    let no_lock = has-selected is_lock lock-Plain (λ _ _. refl) o alias in
    let no_cache = has-selected is_cache cache-Plain (λ _ _. refl) o alias in
    record {
      locks = ending is_lock o q ∙ first_of (has is_lock q) l c no_lock;
      caches = ending is_cache o q ∙ second_of (has is_cache q) l c no_cache;
    }
