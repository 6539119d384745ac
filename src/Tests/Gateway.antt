-- ===== src/Tests/Gateway.antt =====
-- A sign-up by HTTP over the sample runtime, with a validator that gives one error for a request and
-- a throttler that refuses one client.
use trash.Prelude.{
  ℕ, leb, length, ◌+◌, ◌≡◌, refl, Bool, true, false, ◌↔◌, none, List, [], ◌∷◌, Text, codes, text_eq,
  if◌then◌else◌, arith,
}
use trash.Exceptions.{Exception, too_many_requests_exception}
use trash.Runtime.Sample.{sample}
use trash.World.{ok, err, World}
use trash.Action.{pure, raise}
use trash.Filter.{catch_exception}
use trash.Notifications.Laws.{email_service-Quiet}
use trash.Validation.{password_is_valid, all, looks_ahead}
use trash.Routes
use trash.Routes.{refused, handle}
use trash.Accounts.{view}
use trash.Gateway.{Incoming, Route, Throttler, throttled, receive, request_of}
use trash.Gateway.Rules.{
  Field, Values, Validator, ValidationError, is_valid, email_key, password_key,
}
use trash.Gateway.Laws.{
  AreTexts, fields_read, IsStrong, is_accepted, Refusal, receive_lem, is_accepted-AreTexts, verdict,
}
use trash.Accounts.Numbers.{AllGrow, email_service-Grows}
use trash.Gateway.Runs.{Steady, Trace, Reach, here, next, request, elapse, Reach-Trace}
use trash.Gateway.Kept.{Kept, Reach-Kept}
use trash.Gateway.Refines.{Apart}
use trash.Tests.Consistent.{empty-Idle}
use trash.Tests.Worlds.{empty_world, jwt_config, ann, services}

abbrev has_at : Text → Bool
has_at [] = false
has_at (c ∷ s) = let rest = has_at s in if text_eq (c ∷ []) (codes "@") then true else rest

abbrev not_empty : Text → Bool
not_empty [] = false
not_empty (c ∷ s) = true

abbrev long : ℕ → Text → Bool
long n s = leb n (length s)

abbrev some_error : List ValidationError
some_error = record { property = codes "body"; constraints = codes "is not valid" ∷ [] } ∷ []

abbrev errors_of : Bool → List ValidationError
errors_of true = []
errors_of false = some_error

errors_of-empty : (b : Bool) → (errors_of b ≡ []) ↔ (b ≡ true)
errors_of-empty true = (λ h. refl, λ h. refl)
errors_of-empty false = (λ h. absurd (cc h), λ h. absurd (cc h))

abbrev validator : Validator
validator = record {
  email = has_at;
  uuid = not_empty;
  long = long;
  validate = λ d v. errors_of (is_valid has_at not_empty long d v);
  validate-empty = λ d v. errors_of-empty (is_valid has_at not_empty long d v);
}

-- It refuses the client with no address.
abbrev throttler : Throttler
throttler route limit tracker =
    if text_eq tracker [] then raise (too_many_requests_exception limit.rate) else pure tt

abbrev sign_up_values : Values
sign_up_values k =
    if text_eq k email_key
    then Field.text (codes "Ann@x.io")
    else if text_eq k password_key
    then Field.text (codes "Passw0rd!")
    else Field.missing

abbrev sign_up_request : Incoming
sign_up_request = record {
  route = Route.sign_up;
  query = λ k. Field.missing;
  body = sign_up_values;
  forwarded_for = none;
  ip = codes "10.0.0.1";
}

throttler-Apart :
    (i : Incoming) (w : World) → Apart validator throttler w (throttled throttler i w).1
unfolding throttled
throttler-Apart i w = record {
  committed = ground arith;
  pending = ground arith;
  user_seq = ground arith;
}

receive_lem_example :
    (verdict throttler sign_up_request empty_world ≡ (ok tt, empty_world)
      → (is_accepted validator sign_up_request ≡ true
          → receive validator throttler jwt_config services sign_up_request empty_world
            ≡ handle jwt_config services (Routes.Request.sign_up ann) empty_world)
        × (is_accepted validator sign_up_request ≡ false
            → Refusal validator
                (receive validator throttler jwt_config services sign_up_request empty_world)
                empty_world))
    × ((x : Exception)
        → verdict throttler sign_up_request empty_world ≡ (err x, empty_world)
        → receive validator throttler jwt_config services sign_up_request empty_world
          ≡ (refused (catch_exception 1000000 x), empty_world))
unfolding text_eq
receive_lem_example =
    receive_lem validator throttler jwt_config services sign_up_request empty_world empty_world

sign_up_request-accepted : is_accepted validator sign_up_request ≡ true
unfolding password_is_valid looks_ahead all text_eq
sign_up_request-accepted = refl

is_accepted-AreTexts_example :
    AreTexts (fields_read Route.sign_up (λ k. Field.missing) sign_up_values)
    × IsStrong validator (request_of Route.sign_up (λ k. Field.missing) sign_up_values)
unfolding password_is_valid looks_ahead all text_eq
is_accepted-AreTexts_example = is_accepted-AreTexts validator sign_up_request refl

services-AllGrow : AllGrow services
services-AllGrow = (λ e p. record { at = λ w. (email_service-Grows (codes "x.io") e p).at w }, tt)

empty-Steady : Steady validator throttler empty_world
empty-Steady = record { idle = empty-Idle; fresh = record { free = λ n h. refl } }

-- A sign-up, and an hour later a request that is not valid.
abbrev signed_up_world : World
signed_up_world = (receive validator throttler jwt_config services sign_up_request empty_world).1

abbrev later_world : World
later_world = record signed_up_world { now = signed_up_world.now + 3600000; faults = true ∷ [] }

abbrev last_world : World
last_world =
    (receive validator throttler jwt_config services
      (record sign_up_request { body = λ k. Field.missing }) later_world).1

run :
    Reach validator throttler throttler-Apart jwt_config services
      (email_service-Quiet (codes "x.io"), tt)
      services-AllGrow
      empty_world
      last_world
run =
    next
      (next (next here (request empty_world sign_up_request))
        (elapse signed_up_world (signed_up_world.now + 3600000) (true ∷ []) (omega arith)))
      (request later_world (record sign_up_request { body = λ k. Field.missing }))

Reach-Trace_example :
    Steady validator throttler last_world
    × Trace validator throttler
        ((record sign_up_request { body = λ k. Field.missing }, later_world)
          ∷ (sign_up_request, empty_world)
          ∷ [])
        (view empty_world.committed)
        (view last_world.committed)
unfolding run services-AllGrow throttler-Apart
Reach-Trace_example =
    Reach-Trace validator throttler throttler-Apart jwt_config services
      (email_service-Quiet (codes "x.io"), tt) services-AllGrow empty-Steady run

Reach-Kept_example : Kept (view empty_world.committed) (view last_world.committed)
Reach-Kept_example =
    Reach-Kept validator throttler throttler-Apart jwt_config services
      (email_service-Quiet (codes "x.io"), tt) services-AllGrow empty-Steady run
