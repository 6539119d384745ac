-- ===== src/Health/Laws.antt =====
-- The health of a service that has just started.
use trash.Prelude.{
  ap, ◌∙◌, ◌≡◌, refl, inl, Bool, true, false, ◌&&◌, List, [], ◌∷◌, Text, arith, codes, ◌*◌,
}
use trash.Runtime.{Runtime}
use trash.World.{Result, ok, err, World}
use trash.Broker.{holds, is_connection}
use trash.Broker.Factory.{Module, on_module_init}
use trash.Broker.Factory.Laws.{
  queues_of, all_asserted, some_queue, modules-Asserts, holds-all_asserted, all_asserted-connected,
}
use trash.Health.{
  Ping, healthy, failed, Check, type_orm, heap, rss, disk, checks, check, run_checks, rabbit_ping,
  redis_ping,
}

abbrev pub is_up : Ping → Bool
is_up (healthy s) = true
is_up (failed m s) = false

abbrev pub are_up : List Ping → Bool
are_up [] = true
are_up (p ∷ ps) = is_up p && are_up ps

-- Every check has passed.
abbrev pub reports_up : Result (List Ping) → Bool
reports_up (ok ps) = are_up ps
reports_up (err x) = false

-- The checks of the database, the memory and the disk have passed.
abbrev pub terminus_up : (Check → Ping) → Bool
terminus_up terminus =
    is_up (terminus (type_orm (codes "database")))
    && is_up (terminus (heap (codes "memory_heap") (300 * 1024 * 1024)))
    && is_up (terminus (rss (codes "memory_RSS") (300 * 1024 * 1024)))
    && is_up (terminus (disk (codes "disk") 50 (codes "/")))

module _ ⦃rt : Runtime⦄ where
  check-up :
      (terminus : Check → Ping) (is_ready : Bool) (w : World)
      → reports_up (check terminus is_ready w).0
        ≡ (terminus_up terminus && is_ready && w.broker.connected)
  unfolding check run_checks checks rabbit_ping redis_ping is_connection
  check-up terminus is_ready w = ground arith

  -- When no call fails and the client of the broker is not connected yet, the start of an
  -- application that is not deaf returns, every queue that a method of a controller names is there,
  -- and after it the service is healthy just when the checks of terminus and the cache are and at
  -- least one method names a queue: without one it is unhealthy.
  pub on_module_init-check :
      (terminus : Check → Ping) (is_ready : Bool) (modules : List Module) (w : World)
      → w.faults ≡ []
      → w.broker.connected ≡ false
      → ((on_module_init false modules w).0 ≡ ok tt)
        × ((queue : Text)
            → holds queue (queues_of modules) ≡ true
            → holds queue (on_module_init false modules w).1.broker.queues ≡ true)
        × (reports_up (check terminus is_ready (on_module_init false modules w).1).0
            ≡ (terminus_up terminus && is_ready && some_queue (queues_of modules)))
  on_module_init-check terminus is_ready modules w h closed =
      let starts = (modules-Asserts modules).at w h (inl closed) in
      rw starts (
        refl,
        λ queue is. holds-all_asserted queue (queues_of modules) w.broker is,
        check-up terminus is_ready (record w { broker = all_asserted (queues_of modules) w.broker })
            ∙ ap (λ b. terminus_up terminus && is_ready && b)
                (all_asserted-connected (queues_of modules) w.broker closed),
      )
