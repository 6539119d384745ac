-- ===== src/Gateway/Kept.antt =====
-- What no run of the service takes from an account.
use trash.Prelude.{
  ◌≡◌, refl, sym, ap, ◌∙◌, true, Option, some, List, Text, text_eq, text_eq_iff, Bool-cases, inl,
  inr,
}
use trash.Runtime.{Runtime}
use trash.World.{World}
use trash.Sessions.{JwtConfig}
use trash.Notifications.{Service}
use trash.Auth.Making.{AllQuiet}
use trash.Routes.{Request}
use trash.Accounts.{Account, Accounts, Permitted, set_at, view, same, register, verify, reset}
use trash.Accounts.Numbers.{AllGrow}
use trash.Gateway.{Incoming, Throttler, throttled}
use trash.Gateway.Rules.{Validator}
use trash.Gateway.Refines.{Apart, Served, refused, served}
use trash.Gateway.Runs.{Steady, Trace, start, serve, Reach, Reach-Trace}

-- An account that is there is still there, and verified if it was.
pub record Still (a : Account) (o : Option Account) : Type 0 where
  pub account : Account
  pub there : o ≡ some account
  pub verified : a.verified ≡ true → account.verified ≡ true

abbrev pub Kept : Accounts → Accounts → Type 0
Kept v v' = (x : Text) (a : Account) → v x ≡ some a → Still a (v' x)

Kept-same : (v v' : Accounts) → v' ≡ v → Kept v v'
Kept-same v v' e x a h = record {
  account = a;
  there = ap (λ (f : Accounts). f x) e ∙ h;
  verified = λ k. k;
}

Kept-through : (u v w : Accounts) → Kept u v → Kept v w → Kept u w
Kept-through u v w p q x a h =
    let s = p x a h in
    let t = q x s.account s.there in
    record { account = t.account; there = t.there; verified = λ k. t.verified (s.verified k) }

-- One account is put in place of another that is not verified unless the new one is, or where there
-- was none.
Kept-set :
    (e : Text) (new : Account) (v v' : Accounts)
    → v' ≡ set_at e new v
    → ((a : Account) → v e ≡ some a → a.verified ≡ true → new.verified ≡ true)
    → Kept v v'
Kept-set e new v v' is keeps x a h = elim (Bool-cases (text_eq e x)) [
  | inl here ↦
      let same_text = (text_eq_iff e x).0 here in
      record {
        account = new;
        there = ap (λ (f : Accounts). f x) is ∙ rw here refl;
        verified = keeps a (ap v same_text ∙ h);
      }
  | inr other ↦ record {
    account = a;
    there = ap (λ (f : Accounts). f x) is ∙ rw other h;
    verified = λ k. k;
  }
]

module _ ⦃rt : Runtime⦄ where
  Permitted-Kept : {r : Request} {v v' : Accounts} → Permitted r v v' → Kept v v'
  Permitted-Kept {v = v} {v' = v'} (same r e) = Kept-same v v' e
  Permitted-Kept {v = v} {v' = v'} (register d salt free e) =
      Kept-set _ _ v v' e (λ a h k. absurd (cc (free, h)))
  Permitted-Kept {v = v} {v' = v'} (verify token e a there is) =
      Kept-set e _ v v' is (λ b h k. refl)
  Permitted-Kept {v = v} {v' = v'} (reset token password e salt a there is) =
      Kept-set e _ v v' is (λ b h k. let one : a ≡ b = same_account a b (sym there ∙ h) in rw one k)
    where
      same_account : (p q : Account) → some p ≡ some q → p ≡ q
      same_account p q f = cc

  module _ (v : Validator) (throttler : Throttler) where
    Served-Kept :
        {i : Incoming} {w : World} {a b : Accounts} → Served v throttler i w a b → Kept a b
    Served-Kept {a = a} {b = b} (refused e) = Kept-same a b e
    Served-Kept (served through accepted strong p) = Permitted-Kept p

    Trace-Kept :
        {log : List (Incoming × World)} {a b : Accounts} → Trace v throttler log a b → Kept a b
    Trace-Kept (start a) = Kept-same a a refl
    Trace-Kept {a = a} {b = c} (serve {b = b} i w t s) =
        Kept-through a b c (Trace-Kept t) (Served-Kept s)

    -- In every run that starts with a consistent database, no open transaction and no row with a
    -- number that is still to be given out, whatever the requests and the failing calls, and with a
    -- throttler and notification services that do not touch the database or set that number back:
    -- an account that is there at some time is there from then on, and one that is verified stays
    -- verified.
    pub Reach-Kept :
        (apart : (i : Incoming) (w : World) → Apart v throttler w (throttled throttler i w).1)
        (config : JwtConfig) (services : List Service) (quiet : AllQuiet services)
        (grow : AllGrow services) {first w : World}
        → Steady v throttler first
        → Reach v throttler apart config services quiet grow first w
        → Kept (view first.committed) (view w.committed)
    Reach-Kept apart config services quiet grow s r =
        Trace-Kept (Reach-Trace v throttler apart config services quiet grow s r).1
