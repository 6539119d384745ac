-- ===== src/Queues/Laws.antt =====
-- How a pass of libs/queue_restart/src/queue.restart.abstract.ts over the failed jobs ends.
use trash.Prelude.{
  ℕ, suc, ◌+◌, ◌≤◌, ◌≡◌, refl, ap, ◌∙◌, ◌≢◌, true, List, [], ◌∷◌, length, ltb, arith, Bool-cases,
  Option-cases, inl, inr,
}
use trash.Queues.{
  Job, Queue, Pass, returned, threw, out_of_fuel, then_, on_page, retry_page, rounds, restart_queue,
}

empty-length {ℓ} : {A : Type ℓ} (xs : List A) → length xs ≤ 0 → xs ≡ []
empty-length [] h = refl
empty-length (x ∷ xs) h = ground arith

-- Every job failed less than the refresh time ago.
abbrev pub AllRecent : ℕ → ℕ → List Job → Type 0
AllRecent now refresh_time [] = Unit
AllRecent now refresh_time (job ∷ jobs) =
    (ltb now (job.finished_on + refresh_time) ≡ true) × AllRecent now refresh_time jobs

module _ (queue : Queue) (now refresh_time : ℕ) where
  -- `getFailed` takes the number of the last job: from the third page on the range is empty.
  third-page : (q : queue.Jobs) → queue.get_failed 200 100 q ≡ []
  third-page q = empty-length _ (queue.length-get_failed 200 100 q)

  page-fuel :
      (jobs : List Job) (q : queue.Jobs) → retry_page queue now refresh_time jobs q ≢ out_of_fuel
  unfolding retry_page
  page-fuel [] q = ground arith
  page-fuel (job ∷ jobs) q = elim (Bool-cases (ltb now (job.finished_on + refresh_time))) [
    | inl recent ↦ rw recent (page-fuel jobs q)
    | inr old ↦ elim (Option-cases (queue.retry job q)) [
      | inl throws ↦ rw (old, throws) (λ e. cc e)
      | inr (q', retried) ↦ rw (old, retried) (page-fuel jobs q')
    ]
  ]

  last-round : (n : ℕ) (q : queue.Jobs) → rounds queue now refresh_time (suc n) 200 q ≡ returned q
  unfolding rounds
  last-round n q = rw (third-page q) refl

  Ends : Pass queue.Jobs → Type 0
  Ends p = p ≢ out_of_fuel

  then-Ends :
      (p : Pass queue.Jobs) (next : queue.Jobs → Pass queue.Jobs)
      → p ≢ out_of_fuel
      → ((q : queue.Jobs) → next q ≢ out_of_fuel)
      → then_ queue p next ≢ out_of_fuel
  then-Ends (returned q) next h k = k q
  then-Ends (threw q) next h k = h
  then-Ends out_of_fuel next h k = h

  page-Ends :
      (jobs : List Job) (q : queue.Jobs) (further : queue.Jobs → Pass queue.Jobs)
      → ((q : queue.Jobs) → further q ≢ out_of_fuel)
      → on_page queue now refresh_time jobs q further ≢ out_of_fuel
  page-Ends [] q further k = λ e. cc e
  page-Ends (job ∷ jobs) q further k = then-Ends _ further (page-fuel (job ∷ jobs) q) k

  last-Ends : (n : ℕ) (q : queue.Jobs) → rounds queue now refresh_time (suc n) 200 q ≢ out_of_fuel
  last-Ends n q e = let f = last-round n q in cc (e, f)

  -- Three rounds are enough: a pass over the failed jobs comes to its end, whatever is in the queue.
  pub restart_queue-ends :
      (n : ℕ) (q : queue.Jobs)
      → restart_queue queue now refresh_time (suc (suc (suc n))) q ≢ out_of_fuel
  unfolding restart_queue rounds
  restart_queue-ends n q = page-Ends _ q _ (λ r. page-Ends _ r _ (last-Ends n))

  page-recent :
      (jobs : List Job) (q : queue.Jobs)
      → AllRecent now refresh_time jobs
      → retry_page queue now refresh_time jobs q ≡ returned q
  unfolding retry_page
  page-recent [] q h = refl
  page-recent (job ∷ jobs) q (h, hs) = rw h (page-recent jobs q hs)

  on_page-recent :
      (jobs : List Job) (q : queue.Jobs) (further : queue.Jobs → Pass queue.Jobs)
      → AllRecent now refresh_time jobs
      → further q ≡ returned q
      → on_page queue now refresh_time jobs q further ≡ returned q
  on_page-recent [] q further h e = refl
  on_page-recent (job ∷ jobs) q further h e =
      ap (λ p. then_ queue p further) (page-recent (job ∷ jobs) q h) ∙ e

  -- A pass over a queue whose failed jobs all failed less than the refresh time ago returns with
  -- the queue as it was.
  pub restart_queue-recent :
      (n : ℕ) (q : queue.Jobs)
      → ((start end_ : ℕ) → AllRecent now refresh_time (queue.get_failed start end_ q))
      → restart_queue queue now refresh_time (suc (suc (suc n))) q ≡ returned q
  unfolding restart_queue rounds
  restart_queue-recent n q h =
      on_page-recent _ q _ (h 0 100) (on_page-recent _ q _ (h 100 100) (last-round n q))
