-- ===== src/Gateway/Refines.antt =====
-- A request by HTTP as a change of the accounts of Accounts.antt.
use trash.Prelude.{◌≡◌, ap, sym, ◌∙◌, true, none, List, inl, inr, Bool-cases}
use trash.Runtime.{Runtime}
use trash.World.{Result, ok, err, World}
use trash.Sessions.{JwtConfig}
use trash.Notifications.{Service}
use trash.Auth.Making.{AllQuiet}
use trash.Accounts.{Accounts, Permitted, view}
use trash.Accounts.Refines.{handle-Permitted}
use trash.Invariant.{Idle}
use trash.Invariant.Requests.{Idle-same}
use trash.Gateway.{Incoming, Throttler, throttled, receive, request_of}
use trash.Gateway.Rules.{Validator}
use trash.Gateway.Laws.{
  is_accepted, IsStrong, is_accepted-AreTexts, receive_lem, verdict, throttled-verdict,
}

module _ ⦃rt : Runtime⦄ (v : Validator) (throttler : Throttler) where
  -- The throttler keeps its counts elsewhere.
  pub record Apart (w w' : World) : Type 0 where
    pub committed : w'.committed ≡ w.committed
    pub pending : w'.pending ≡ w.pending
    pub user_seq : w'.user_seq ≡ w.user_seq

  -- What a request, in a state, may do to the accounts: nothing, or, where the throttler lets it
  -- through and its query and body are valid, what the service permits to it, with passwords that the
  -- DTOs accept.
  pub data Served (i : Incoming) (w : World) (a a' : Accounts) : Type 0 where
    refused : a' ≡ a → Served i w a a'
    served :
        (verdict throttler i w).0 ≡ ok tt
        → is_accepted v i ≡ true
        → IsStrong v (request_of i.route i.query i.body)
        → Permitted (request_of i.route i.query i.body) a a'
        → Served i w a a'

  module _ (apart : (i : Incoming) (w : World) → Apart w (throttled throttler i w).1)
      (config : JwtConfig) (services : List Service) (quiet : AllQuiet services) where
    by_throttler :
        (i : Incoming) (w : World) (r : Result (Unit {0}) × World)
        → verdict throttler i w ≡ r
        → Apart w r.1
        → Idle w
        → rt.users.get w.user_seq w.committed.users ≡ none
        → Served i w (view w.committed) (view (receive v throttler config services i w).1.committed)
    by_throttler i w (err x, w') e p idle fresh =
        let held = (receive_lem v throttler config services i w w').1 x e in
        refused (rw held (ap view p.committed))
    by_throttler i w (ok u, w') e p idle fresh =
        let (passed, invalid) = (receive_lem v throttler config services i w w').0 e in
        elim (Bool-cases (is_accepted v i)) [
          | inl valid ↦
              let same : Idle w' = Idle-same p.committed p.pending idle in
              let request = request_of i.route i.query i.body in
              let free : rt.users.get w'.user_seq w'.committed.users ≡ none =
                rw (p.user_seq, p.committed) fresh in
              let done = handle-Permitted config services quiet request w' same free in
              served (ap (λ (x : Result (Unit {0}) × World). x.0) e) valid
                (is_accepted-AreTexts v i valid).1 (rw (passed valid, ← p.committed) done)
          | inr other ↦
              let bad = invalid other in
              refused (ap (λ (x : World). view x.committed) bad.same ∙ ap view p.committed)
        ]

    -- Every request by HTTP refines the abstract service of accounts: where the database is
    -- consistent, no transaction is open and the next number of a user is not taken, and with a
    -- throttler and notification services that do not touch the database, a request changes the
    -- accounts only if the throttler let it through and its query and body passed the DTOs, only by
    -- what the specification permits to it, and any password to be stored is one that the pattern
    -- accepts.
    pub receive-Served :
        (i : Incoming) (w : World)
        → Idle w
        → rt.users.get w.user_seq w.committed.users ≡ none
        → Served i w (view w.committed) (view (receive v throttler config services i w).1.committed)
    receive-Served i w idle fresh =
        by_throttler i w (throttled throttler i w) (sym (throttled-verdict throttler i w))
          (apart i w) idle fresh
