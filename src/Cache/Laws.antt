-- ===== src/Cache/Laws.antt =====
-- What `CacheService` reads back, when no call fails.
use trash.Prelude.{
  ℕ, suc, ◌+◌, ◌*◌, ◌≡◌, refl, ap, ◌∙◌, Option, none, some, [], ◌∷◌, Text, arith, text_eq,
  text_eq_iff, text_eq_refl, ltb, Bool-cases, inl, inr, if◌then◌else◌,
}
use trash.Runtime.{Runtime, Json, string}
use trash.World.{Result, ok, World}
use trash.Action.{call}
use trash.Cache
use trash.Cache.{Ttl, absent, seconds, nx, response, parsed}

module _ ⦃rt : Runtime⦄ where
  -- The world at a later time.
  abbrev pub at_time : ℕ → World → World
  at_time t w = record w { now = t }

  response_lem :
      (j : Json) (s : Text) (w : World)
      → s ≡ rt.stringify j
      → response (some s) w ≡ (ok (some j), w)
  response_lem j [] w e =
      absurd (ground (arith, rt.stringify_not_empty j, text_eq_iff [] (rt.stringify j)))
  response_lem j (c ∷ s) w e = rw (e ∙ refl, rt.parse-stringify j)

  pub get-cases :
      (key : Text) (w : World)
      → w.faults ≡ []
      → Cache.get key w ≡ response (rt.cache.get w.now key w.cache) w
  unfolding Cache.get call
  get-cases key w h = rw h

  read :
      (key : Text) (j : Json) (w : World)
      → w.faults ≡ []
      → rt.cache.get w.now key w.cache ≡ some (rt.stringify j)
      → (Cache.get key w).0 ≡ ok (some j)
  read key j w h e =
      rw (get-cases key w h, e)
        (ap (λ (r : Result (Option Json) × World). r.0) (response_lem j (rt.stringify j) w refl))

  miss :
      (key : Text) (w : World)
      → w.faults ≡ []
      → rt.cache.get w.now key w.cache ≡ none
      → (Cache.get key w).0 ≡ ok none
  miss key w h e = rw (get-cases key w h, e)

  pub set-seconds :
      (key : Text) (j : Json) (n : ℕ) (w : World)
      → w.faults ≡ []
      → Cache.set key j (seconds (suc n)) w ≡ (
        ok tt,
        record w { cache = rt.cache.set w.now key (rt.stringify j) (some (suc n)) w.cache },
      )
  unfolding Cache.set call
  set-seconds key j n w h = rw h

  pub get-set :
      (key : Text) (j : Json) (n t : ℕ) (w : World)
      → w.faults ≡ []
      → (Cache.get key (at_time t (Cache.set key j (seconds (suc n)) w).1)).0
        ≡ ok (if ltb t (w.now + 1000 * suc n) then some j else none)
  get-set key j n t w h =
      rw (set-seconds key j n w h) (elim (Bool-cases (ltb t (w.now + 1000 * suc n))) [
        | inl lives ↦ rw lives (read key j (after t) h (stored t ∙ rw (lives)))
        | inr over ↦ rw over (miss key (after t) h (stored t ∙ rw (over)))
      ])
    where
      written : rt.cache.Entries
      written = rt.cache.set w.now key (rt.stringify j) (some (suc n)) w.cache

      after : ℕ → World
      after u = record w { cache = written; now = u }

      stored :
          (u : ℕ)
          → rt.cache.get u key written
            ≡ (if ltb u (w.now + 1000 * suc n) then some (rt.stringify j) else none)
      stored u =
          rt.cache.get-set u w.now key key (rt.stringify j) (some (suc n)) w.cache
          ∙ rw (text_eq_refl key)

  set-nx :
      (key : Text) (j : Json) (w : World)
      → w.faults ≡ []
      → Cache.set key j nx w ≡ (
        ok tt,
        record w {
          cache =
              rt.cache.set_nx w.now key
                (rt.stringify (string (rt.stringify j)))
                (rt.cache.del key w.cache);
        },
      )
  unfolding Cache.set call Cache.del
  set-nx key j w h = rw h

  pub get-set_nx :
      (key : Text) (j : Json) (t : ℕ) (w : World)
      → w.faults ≡ []
      → (Cache.get key (at_time t (Cache.set key j nx w).1)).0 ≡ ok (some j)
  get-set_nx key j t w h =
      rw (set-nx key j w h, ← rt.encode-stringify (rt.stringify j))
        (read key j after h (
          rt.cache.get-set_nx t w.now key key (rt.stringify j) emptied free
          ∙ rw (text_eq_refl key)))
    where
      emptied : rt.cache.Entries
      emptied = rt.cache.del key w.cache

      after : World
      after = record w {
        cache = rt.cache.set_nx w.now key (rt.cache.encode (rt.stringify j)) emptied;
        now = t;
      }

      free : rt.cache.get w.now key emptied ≡ none
      free = rt.cache.get-del w.now key key w.cache ∙ rw (text_eq_refl key)

  pub del-ok :
      (k : Text) (w : World)
      → w.faults ≡ []
      → Cache.del k w ≡ (ok tt, record w { cache = rt.cache.del k w.cache })
  unfolding Cache.del call
  del-ok k w h = rw h

  pub get-del :
      (j k : Text) (w : World)
      → w.faults ≡ []
      → (Cache.get j (Cache.del k w).1).0 ≡ (if text_eq k j then ok none else (Cache.get j w).0)
  get-del j k w h = rw (del-ok k w h) (elim (Bool-cases (text_eq k j)) [
    | inl same ↦ rw same (miss j after h (rt.cache.get-del w.now j k w.cache ∙ rw same))
    | inr other ↦
        rw (other, get-cases j after h, get-cases j w h)
          (rw (rt.cache.get-del w.now j k w.cache, other) (kept (rt.cache.get w.now j w.cache)))
  ])
    where
      after : World
      after = record w { cache = rt.cache.del k w.cache }

      kept : (o : Option Text) → (response o after).0 ≡ (response o w).0
      kept none = refl
      kept (some []) = refl
      kept (some (c ∷ s)) = parsed-same (rt.parse (c ∷ s))
        where
          parsed-same : (o : Option Json) → (parsed o after).0 ≡ (parsed o w).0
          parsed-same none = refl
          parsed-same (some x) = refl

  -- When no call fails: a value that was set for `n + 1` seconds is read until they are over, and
  -- not from then on; a value that was set with `NX` is read back, whatever was there before and at
  -- any time, since it has no end; and `del` removes the one entry whose key is the argument,
  -- character by character: any other key reads as before.
  pub cache_lem :
      (k : Text) (j : Json) (n t : ℕ) (w : World)
      → w.faults ≡ []
      → ((Cache.get k (at_time t (Cache.set k j (seconds (suc n)) w).1)).0
          ≡ ok (if ltb t (w.now + 1000 * suc n) then some j else none))
        × ((Cache.get k (at_time t (Cache.set k j nx w).1)).0 ≡ ok (some j))
        × ((other : Text)
            → (Cache.get other (Cache.del k w).1).0
              ≡ (if text_eq k other then ok none else (Cache.get other w).0))
  cache_lem k j n t w h = (get-set k j n t w h, get-set_nx k j t w h, λ other. get-del other k w h)
