-- ===== src/Broker/Racing/Laws.antt =====
-- What holds of the client of the broker however the callers of `_init` interleave.
use trash.Prelude.{
  ℕ, zero, suc, ◌+◌, ◌≤◌, ◌≡◌, refl, ap, ◌∙◌, Bool, true, false, ◌||◌, ◌&&◌, Option, none, some,
  List, [], ◌∷◌, length, arith, Option-cases, inl, inr,
}
use trash.Broker.Racing.{
  new_client, callers, Phase, waiting, connecting, returned, opening, Client, after_check, advance,
  step, run,
}

abbrev pub is_some {ℓ} : {A : Type ℓ} → Option A → Bool
is_some none = false
is_some (some a) = true

abbrev pub is_opening : Phase → Bool
is_opening (opening n) = true
is_opening _ = false

abbrev pub is_early : Phase → Bool
is_early waiting = true
is_early connecting = true
is_early _ = false

abbrev pub has_returned : Phase → Bool
has_returned returned = true
has_returned _ = false

abbrev pub some_opening : List Phase → Bool
some_opening [] = false
some_opening (p ∷ ps) = is_opening p || some_opening ps

abbrev pub are_early : List Phase → Bool
are_early [] = true
are_early (p ∷ ps) = is_early p && are_early ps

abbrev pub some_returned : List Phase → Bool
some_returned [] = false
some_returned (p ∷ ps) = has_returned p || some_returned ps

-- How many callers have got past `connect`, or past the test.
abbrev started_of : Phase → ℕ
started_of waiting = 0
started_of connecting = 0
started_of returned = 1
started_of (opening n) = 1

abbrev started : List Phase → ℕ
started [] = 0
started (p ∷ ps) = started_of p + started ps

-- The callers of the list together with others before them: whether all of those are early, whether
-- one is at `createChannel`, and how many have started.
record Holds (all_early one_opening : Bool) (count : ℕ) (c : Client) (ps : List Phase)
    : Type 0 where
  early : c.connection ≡ none → (all_early && are_early ps) ≡ true
  ready :
      is_some c.connection ≡ true → (is_some c.channel || (one_opening || some_opening ps)) ≡ true
  few : c.made ≤ count + started ps

-- Over the first caller of the list.
past :
    (a o : Bool) (n : ℕ) (c : Client) (p : Phase) (ps : List Phase)
    → Holds a o n c (p ∷ ps)
    → Holds (a && is_early p) (o || is_opening p) (n + started_of p) c ps
past a o n c p ps h = record {
  early = λ e. let k = h.early e in ground (arith, k);
  ready = λ e. let k = h.ready e in ground (arith, k);
  few = let k = h.few in omega (arith, k);
}

back :
    (a o : Bool) (n : ℕ) (c : Client) (p : Phase) (ps : List Phase)
    → Holds (a && is_early p) (o || is_opening p) (n + started_of p) c ps
    → Holds a o n c (p ∷ ps)
back a o n c p ps h = record {
  early = λ e. let k = h.early e in ground (arith, k);
  ready = λ e. let k = h.ready e in ground (arith, k);
  few = let k = h.few in omega (arith, k);
}

checked :
    (a o : Bool) (n : ℕ) (c : Client) (ps : List Phase)
    → Holds a o n c (waiting ∷ ps)
    → Holds a o n c (after_check c.connection ∷ ps)
checked a o n c ps h = elim (Option-cases c.connection) [
  | inl missing ↦ record {
    early = λ e. rw missing (h.early e);
    ready = λ e. let bad = rw missing at e in absurd (cc bad);
    few = rw missing (h.few);
  }
  | inr (m, there) ↦ record {
    early = λ e. absurd (cc (e, there));
    ready = λ e. rw there (h.ready e);
    few = rw there (let k = h.few in omega (arith, k));
  }
]

step-Holds :
    (i : ℕ) (a o : Bool) (n : ℕ) (c : Client) (ps : List Phase)
    → Holds a o n c ps
    → Holds a o n (step i c ps).0 (step i c ps).1
unfolding step advance
step-Holds i a o n c [] h = h
step-Holds zero a o n c (waiting ∷ ps) h = checked a o n c ps h
step-Holds zero a o n c (connecting ∷ ps) h = record {
  early = λ e. absurd (cc e);
  ready = λ e. ground arith;
  few = let k = h.few in omega (arith, k);
}
step-Holds zero a o n c (opening m ∷ ps) h = record {
  early = λ e. let k = h.early e in k;
  ready = λ e. refl;
  few = let k = h.few in omega (arith, k);
}
step-Holds zero a o n c (returned ∷ ps) h = h
step-Holds (suc i) a o n c (p ∷ ps) h = back a o n (step i c ps).0 p (step i c ps).1 (
    step-Holds i (a && is_early p) (o || is_opening p) (n + started_of p) c ps
      (past a o n c p ps h))

run-Holds :
    (schedule : List ℕ) (c : Client) (ps : List Phase)
    → Holds true false 0 c ps
    → Holds true false 0 (run schedule c ps).0 (run schedule c ps).1
unfolding run
run-Holds [] c ps h = h
run-Holds (i ∷ schedule) c ps h =
    run-Holds schedule (step i c ps).0 (step i c ps).1 (step-Holds i true false 0 c ps h)

abbrev pub all_returned : List Phase → Bool
all_returned [] = true
all_returned (p ∷ ps) = has_returned p && all_returned ps

callers-early : (n : ℕ) → are_early (callers n) ≡ true
callers-early zero = refl
callers-early (suc n) = callers-early n

returned-late : (ps : List Phase) → some_returned ps ≡ true → are_early ps ≡ false
returned-late [] h = absurd (cc h)
returned-late (waiting ∷ ps) h = returned-late ps h
returned-late (connecting ∷ ps) h = returned-late ps h
returned-late (returned ∷ ps) h = refl
returned-late (opening n ∷ ps) h = refl

returned-opening : (ps : List Phase) → all_returned ps ≡ true → some_opening ps ≡ false
returned-opening [] h = refl
returned-opening (waiting ∷ ps) h = absurd (cc h)
returned-opening (connecting ∷ ps) h = absurd (cc h)
returned-opening (returned ∷ ps) h = returned-opening ps h
returned-opening (opening n ∷ ps) h = absurd (cc h)

step-length : (i : ℕ) (c : Client) (ps : List Phase) → length (step i c ps).1 ≡ length ps
unfolding step
step-length i c [] = refl
step-length zero c (p ∷ ps) = refl
step-length (suc i) c (p ∷ ps) = ap suc (step-length i c ps)

run-length :
    (schedule : List ℕ) (c : Client) (ps : List Phase) → length (run schedule c ps).1 ≡ length ps
unfolding run
run-length [] c ps = refl
run-length (i ∷ schedule) c ps =
    run-length schedule (step i c ps).0 (step i c ps).1 ∙ step-length i c ps

length-callers : (n : ℕ) → length (callers n) ≡ n
length-callers zero = refl
length-callers (suc n) = ap suc (length-callers n)

started_few : (p : Phase) → started_of p ≤ 1
started_few waiting = omega arith
started_few connecting = omega arith
started_few returned = omega arith
started_few (opening n) = omega arith

started-length : (ps : List Phase) → started ps ≤ length ps
started-length [] = omega arith
started-length (p ∷ ps) = omega (arith, started_few p, started-length ps)

one_returned : (ps : List Phase) → 1 ≤ length ps → all_returned ps ≡ true → some_returned ps ≡ true
one_returned [] n h = absurd (omega (arith, n))
one_returned (waiting ∷ ps) n h = absurd (cc h)
one_returned (connecting ∷ ps) n h = absurd (cc h)
one_returned (returned ∷ ps) n h = refl
one_returned (opening m ∷ ps) n h = absurd (cc h)

ready_after :
    (c : Client) (ps : List Phase)
    → Holds true false 0 c ps
    → some_returned ps ≡ true
    → (is_some c.channel || some_opening ps) ≡ true
ready_after c ps h r = elim (Option-cases c.connection) [
  | inl missing ↦
      let bad = h.early missing in let late = returned-late ps r in absurd (cc (bad, late))
  | inr (n, there) ↦ h.ready (rw there refl)
]

-- No caller is between its test and its end.
abbrev pub are_settled : List Phase → Bool
are_settled [] = true
are_settled (waiting ∷ ps) = are_settled ps
are_settled (returned ∷ ps) = are_settled ps
are_settled (connecting ∷ ps) = false
are_settled (opening n ∷ ps) = false

settled_after :
    (c : Client) (ps : List Phase)
    → is_some c.connection ≡ true
    → are_settled ps ≡ true
    → are_settled (after_check c.connection ∷ ps) ≡ true
settled_after c ps there h = elim (Option-cases c.connection) [
  | inl missing ↦ let bad = rw missing at there in absurd (cc bad)
  | inr (n, is) ↦ rw is h
]

step-settled :
    (i : ℕ) (c : Client) (ps : List Phase)
    → is_some c.connection ≡ true
    → are_settled ps ≡ true
    → ((step i c ps).0 ≡ c) × (are_settled (step i c ps).1 ≡ true)
unfolding step advance
step-settled i c [] there h = (refl, refl)
step-settled zero c (waiting ∷ ps) there h = (refl, settled_after c ps there h)
step-settled zero c (returned ∷ ps) there h = (refl, h)
step-settled zero c (connecting ∷ ps) there h = absurd (cc h)
step-settled zero c (opening n ∷ ps) there h = absurd (cc h)
step-settled (suc i) c (waiting ∷ ps) there h = step-settled i c ps there h
step-settled (suc i) c (returned ∷ ps) there h = step-settled i c ps there h
step-settled (suc i) c (connecting ∷ ps) there h = absurd (cc h)
step-settled (suc i) c (opening n ∷ ps) there h = absurd (cc h)

run-settled :
    (schedule : List ℕ) (c : Client) (ps : List Phase)
    → is_some c.connection ≡ true
    → are_settled ps ≡ true
    → (run schedule c ps).0 ≡ c
unfolding run
run-settled [] c ps there h = refl
run-settled (i ∷ schedule) c ps there h =
    let (same, settled) = step-settled i c ps there h in
    let still : is_some (step i c ps).0.connection ≡ true = rw same there in
    run-settled schedule (step i c ps).0 (step i c ps).1 still settled ∙ same

-- However the calls of any number of callers interleave, with no call failing and from a client that
-- nobody has called: no more connections are made than there are callers; whenever a caller has
-- returned, the client has a channel or some other caller is still waiting for one; once all callers
-- have returned, of at least one, the client has a channel; and once there is a connection and no
-- caller is between its test and its end, no further call changes the client. But of two or more
-- callers, one can return while the client has no channel.
pub run_lem :
    (n : ℕ) (schedule : List ℕ)
    → ((run schedule new_client (callers n)).0.made ≤ n)
      × (some_returned (run schedule new_client (callers n)).1 ≡ true
          → (is_some (run schedule new_client (callers n)).0.channel
              || some_opening (run schedule new_client (callers n)).1)
            ≡ true)
      × (1 ≤ n
          → all_returned (run schedule new_client (callers n)).1 ≡ true
          → is_some (run schedule new_client (callers n)).0.channel ≡ true)
      × ((later : List ℕ)
          → is_some (run schedule new_client (callers n)).0.connection ≡ true
          → are_settled (run schedule new_client (callers n)).1 ≡ true
          → (run later
              (run schedule new_client (callers n)).0
              (run schedule new_client (callers n)).1).0
            ≡ (run schedule new_client (callers n)).0)
      × ((early : List ℕ) × (some_returned (run early new_client (callers (suc (suc n)))).1 ≡ true)
          × ((run early new_client (callers (suc (suc n)))).0.channel ≡ none))
unfolding run step advance
run_lem n schedule =
    let c = (run schedule new_client (callers n)).0 in
    let ps = (run schedule new_client (callers n)).1 in
    let start : Holds true false 0 new_client (callers n) = record {
      early = λ e. callers-early n;
      ready = λ e. absurd (cc e);
      few = omega arith;
    } in
    let h = run-Holds schedule new_client (callers n) start in
    let size = run-length schedule new_client (callers n) ∙ length-callers n in
    (
      (let few = h.few in omega (arith, few, started-length ps, size)),
      ready_after c ps h,
      (λ some_ all.
          let ready = ready_after c ps h (one_returned ps (omega (arith, some_, size)) all) in
          let none_ = returned-opening ps all in ground (arith, ready, none_)),
      (λ later there settled. run-settled later c ps there settled),
      (0 ∷ 0 ∷ 1 ∷ [], refl, refl),
    )
