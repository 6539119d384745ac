-- ===== src/Gateway/Runs.antt =====
-- Runs of the service: requests by HTTP one after the other, with time passing and any calls
-- failing, against the abstract service of Accounts.antt.
use trash.Prelude.{ℕ, ◌≤◌, ◌≡◌, ap, Bool, List, [], ◌∷◌, sym, inl, inr, Bool-cases, arith}
use trash.Runtime.{Runtime}
use trash.World.{Result, ok, err, World}
use trash.Sessions.{JwtConfig}
use trash.Notifications.{Service}
use trash.Auth.Making.{AllQuiet}
use trash.Accounts.{Accounts, view}
use trash.Accounts.Fresh.{Fresh, Fresh-same, handle-Fresh}
use trash.Accounts.Numbers.{AllGrow}
use trash.Invariant.{Idle}
use trash.Invariant.Reach.{handle-Idle}
use trash.Invariant.Requests.{Idle-same}
use trash.Gateway.{Incoming, Throttler, throttled, receive, request_of}
use trash.Gateway.Rules.{Validator}
use trash.Gateway.Laws.{is_accepted, receive_lem, verdict, throttled-verdict}
use trash.Gateway.Refines.{Apart, Served, receive-Served}

module _ ⦃rt : Runtime⦄ (v : Validator) (throttler : Throttler) where
  -- The database is consistent, no transaction is open, and no row has a number that is still to be
  -- given out.
  pub record Steady (w : World) : Type 0 where
    pub idle : Idle w
    pub fresh : Fresh w

  -- A run of the abstract service on the requests of a list, the last one first, each with the state
  -- it comes to: each request does what it may.
  pub data Trace : List (Incoming × World) → Accounts → Accounts → Type 0 where
    start : (a : Accounts) → Trace [] a a
    serve :
        {a b c : Accounts} {log : List (Incoming × World)} (i : Incoming) (w : World)
        → Trace log a b
        → Served v throttler i w b c
        → Trace ((i, w) ∷ log) a c

  Apart-Steady : (w w' : World) → Apart v throttler w w' → Steady w → Steady w'
  Apart-Steady w w' p s = record {
    idle = Idle-same p.committed p.pending s.idle;
    fresh = Fresh-same w w' (ap (λ db. db.users) p.committed) (rw p.user_seq (omega arith)) s.fresh;
  }

  module _ (apart : (i : Incoming) (w : World) → Apart v throttler w (throttled throttler i w).1)
      (config : JwtConfig) (services : List Service) (quiet : AllQuiet services)
      (grow : AllGrow services) where
    by_throttler :
        (i : Incoming) (w : World) (r : Result (Unit {0}) × World)
        → verdict throttler i w ≡ r
        → Steady r.1
        → Steady (receive v throttler config services i w).1
    by_throttler i w (err x, w') e s = rw ((receive_lem v throttler config services i w w').1 x e) s
    by_throttler i w (ok u, w') e s =
        let request = request_of i.route i.query i.body in
        let (passed, invalid) = (receive_lem v throttler config services i w w').0 e in
        elim (Bool-cases (is_accepted v i)) [
          | inl valid ↦ rw (passed valid) (record {
            idle = handle-Idle config services quiet request w' s.idle;
            fresh = handle-Fresh config services quiet grow request w' s.idle s.fresh;
          })
          | inr other ↦ let bad = invalid other in rw (bad.same) s
        ]

    receive-Steady :
        (i : Incoming) (w : World) → Steady w → Steady (receive v throttler config services i w).1
    receive-Steady i w s =
        by_throttler i w (throttled throttler i w) (sym (throttled-verdict throttler i w))
          (Apart-Steady w (throttled throttler i w).1 (apart i w) s)

    -- A request, or a moment that passes and after which other calls fail.
    pub data Step : World → World → Type 0 where
      request : (w : World) (i : Incoming) → Step w (receive v throttler config services i w).1
      elapse :
          (w : World) (t : ℕ) (faults : List Bool)
          → w.now ≤ t
          → Step w (record w { now = t; faults = faults })

    pub data Reach (first : World) : World → Type 0 where
      here : Reach first first
      next : {u w : World} → Reach first u → Step u w → Reach first w

    Step-Steady : {u w : World} → Step u w → Steady u → Steady w
    Step-Steady (request u i) s = receive-Steady i u s
    Step-Steady (elapse u t faults h) s = record {
      idle = record { consistent = s.idle.consistent; closed = s.idle.closed };
      fresh = record { free = s.fresh.free };
    }

    -- The requests of a run, the last one first, each with the state it comes to.
    abbrev pub log_step :
        {u w : World} → Step u w → List (Incoming × World) → List (Incoming × World)
    log_step (request u i) log = (i, u) ∷ log
    log_step (elapse u t faults h) log = log

    abbrev pub log_of : {first w : World} → Reach first w → List (Incoming × World)
    log_of here = []
    log_of (next r step) = log_step step (log_of r)

    Step-Trace :
        {u w : World} {a : Accounts} {log : List (Incoming × World)} (step : Step u w)
        → Steady u
        → Trace log a (view u.committed)
        → Trace (log_step step log) a (view w.committed)
    Step-Trace (request u i) s t =
        let free = s.fresh.free u.user_seq (omega arith) in
        serve i u t (receive-Served v throttler apart config services quiet i u s.idle free)
    Step-Trace (elapse u t faults h) s trace = trace

    -- The service refines the abstract service of accounts: in every run that starts with a
    -- consistent database, no open transaction and no row with a number that is still to be given
    -- out, whatever the requests and the failing calls, and with a throttler and notification
    -- services that do not touch the database or set that number back, all of that stays so, and
    -- the accounts change only by a run of the specification on the requests of this run, in their
    -- order: a request changes them only if the throttler, which is asked unless the request gets,
    -- with the route's own limit and the client's address, let it through in the state it came to,
    -- and its query and body passed the DTOs; any password in it that is to be stored is one that
    -- the pattern accepts; and then a sign-up adds an unverified account at a free address, a
    -- confirmation marks one account as verified, a recovery sets the password of one account, and
    -- every other request leaves all accounts as they were.
    pub Reach-Trace :
        {first w : World}
        → Steady first
        → (r : Reach first w)
        → Steady w × Trace (log_of r) (view first.committed) (view w.committed)
    Reach-Trace {first = first} s here = (s, start (view first.committed))
    Reach-Trace s (next r step) =
        let (steady, trace) = Reach-Trace s r in
        (Step-Steady step steady, Step-Trace step steady trace)
