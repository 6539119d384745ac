-- ===== src/Queues.antt =====
-- `QueueRestartAbstract` of libs/queue_restart/src/queue.restart.abstract.ts. The queue is Bull's.
-- The clock stands still during a pass.
pub mod Laws
use trash.Prelude.{
  ℕ, zero, suc, ◌+◌, ◌-◌, ◌≤◌, Bool, Option, none, some, List, [], ◌∷◌, length, ltb, if◌then◌else◌,
}

pub record Job : Type 0 where
  pub id : ℕ
  pub finished_on : ℕ

-- `getFailed(start, end)`: the failed jobs from the one numbered `start` to the one numbered `end`,
-- both included. `retry` puts a failed job back to those that wait, or throws.
pub record Queue : Type 1 where
  pub Jobs : Type 0
  pub get_failed : ℕ → ℕ → Jobs → List Job
  pub retry : Job → Jobs → Option Jobs
  pub length-get_failed :
      (start end_ : ℕ) (q : Jobs) → length (get_failed start end_ q) ≤ 1 + end_ - start

-- How a pass ends: it returns, a call throws, or the fuel of the model is gone.
pub data Pass (Q : Type 0) : Type 0 where
  returned : Q → Pass Q
  threw : Q → Pass Q
  out_of_fuel : Pass Q

module _ (queue : Queue) where
  abbrev after_retry :
      Option queue.Jobs → queue.Jobs → (queue.Jobs → Pass queue.Jobs) → Pass queue.Jobs
  after_retry none q next = threw q
  after_retry (some q') q next = next q'

  abbrev pub then_ : Pass queue.Jobs → (queue.Jobs → Pass queue.Jobs) → Pass queue.Jobs
  then_ (returned q) next = next q
  then_ (threw q) next = threw q
  then_ out_of_fuel next = out_of_fuel

  -- The `for` over the jobs of one page.
  unfoldable pub retry_page : ℕ → ℕ → List Job → queue.Jobs → Pass queue.Jobs
  retry_page now refresh_time [] q = returned q
  retry_page now refresh_time (job ∷ jobs) q =
      let rest = retry_page now refresh_time jobs in
      if ltb now (job.finished_on + refresh_time)
      then rest q
      else after_retry (queue.retry job q) q rest

  -- A page is left once it is empty; `further` is the rest of the loop.
  abbrev pub on_page :
      ℕ → ℕ → List Job → queue.Jobs → (queue.Jobs → Pass queue.Jobs) → Pass queue.Jobs
  on_page now refresh_time [] q further = returned q
  on_page now refresh_time (job ∷ jobs) q further =
      then_ (retry_page now refresh_time (job ∷ jobs) q) further

  -- The `while`, from an offset, for at most so many rounds.
  unfoldable pub rounds : ℕ → ℕ → ℕ → ℕ → queue.Jobs → Pass queue.Jobs
  rounds now refresh_time zero offset q = out_of_fuel
  rounds now refresh_time (suc n) offset q =
      on_page now refresh_time (queue.get_failed offset 100 q) q
        (rounds now refresh_time n (offset + 100))

  unfoldable pub restart_queue : ℕ → ℕ → ℕ → queue.Jobs → Pass queue.Jobs
  restart_queue now refresh_time fuel q = rounds now refresh_time fuel 0 q
