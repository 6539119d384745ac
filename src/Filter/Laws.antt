-- ===== src/Filter/Laws.antt =====
-- What a client is told of an exception.
use trash.Prelude.{ℕ, suc, Option, ◌==◌, ◌≡◌, refl, false, none, some, [], ◌∷◌, Text, codes, arith}
use trash.Exceptions.{HttpResponse, text, object, Exception, http}
use trash.Filter.{Message, null, undefined, said, whole, catch_exception}

-- What the exception says of itself: nothing, unless it is one of HTTP, whose text it is, or the
-- message of its object.
abbrev pub own_message : Exception → Message
own_message (http e) = own e.response
  where
    own : HttpResponse → Message
    own (text []) = null
    own (text (c ∷ s)) = said (c ∷ s)
    own (object (some (c ∷ s)) r) = said (c ∷ s)
    own (object (some []) r) = said (codes "[object Object]")
    own (object none r) = said (codes "[object Object]")
own_message _ = null

-- The status of an exception of HTTP is its own; every other one has 500.
abbrev pub own_status : Exception → ℕ
own_status (http e) = e.status
own_status _ = 500

-- The whole response, for a 503.
abbrev pub own_response : Exception → Message
own_response (http e) = whole e.response
own_response _ = null

-- What a 429 says: the message of its object.
abbrev pub limit_message : Exception → Message
limit_message (http e) = of_response e.response
  where
    of_response : HttpResponse → Message
    of_response (object (some s) r) = said s
    of_response _ = undefined
limit_message _ = undefined

-- The seconds of a 429's object, unless they are 0.
abbrev pub limit_seconds : Exception → Option ℕ
limit_seconds (http e) = of_response e.response
  where
    of_response : HttpResponse → Option ℕ
    of_response (object m (some (suc n))) = some (suc n)
    of_response _ = none
limit_seconds _ = none

-- Every exception is answered with its own status, and one that is not of HTTP with 500; with its
-- own message and no `retry-after`, unless the status is 429 or 503; a 429 with the message of its
-- object, which a text does not have, and with a `retry-after` of its seconds unless they are 0; a
-- 503 with its whole response and no `retry-after`.
pub catch-reply :
    (now : ℕ) (e : Exception)
    → let reply = catch_exception now e in
      (reply.status_code ≡ own_status e)
      × (reply.timestamp ≡ now)
      × ((own_status e == 429) ≡ false
          → (own_status e == 503) ≡ false
          → (reply.message ≡ own_message e) × (reply.retry_after ≡ none))
      × (own_status e ≡ 429
          → (reply.message ≡ limit_message e) × (reply.retry_after ≡ limit_seconds e))
      × (own_status e ≡ 503 → (reply.message ≡ own_response e) × (reply.retry_after ≡ none))
unfolding catch_exception
catch-reply now e = (ground arith, refl, ground arith, ground arith, ground arith)

-- A 429 whose response is a text, as that of the throttler is, loses its message.
pub catch-throttled :
    (now : ℕ) (s : Text)
    → (catch_exception now (http (record { status = 429; response = text s }))).message ≡ undefined
unfolding catch_exception
catch-throttled now s = refl
