-- ===== src/Filter.antt =====
-- `AppExceptionsFilter` of libs/utils/src/app.exceptions.filter.ts: the reply to a request that
-- raised. The debug output is not modelled.
pub mod Laws
use trash.Prelude.{
  ℕ, ◌==◌, Bool, true, false, Option, none, some, [], ◌∷◌, Text, codes, if◌then◌else◌,
}
use trash.Exceptions.{HttpResponse, text, object, Exception, http}

-- `message` of the body: JSON's null, `undefined`, a text, or the whole response.
pub data Message : Type 0 where
  null undefined : Message
  said : Text → Message
  whole : HttpResponse → Message

-- `IResponseError`, with the header that `catch` sets.
pub record ResponseError : Type 0 where
  pub status_code : ℕ
  pub timestamp : ℕ
  pub message : Message
  pub retry_after : Option ℕ

abbrev pub http_status : Exception → ℕ
http_status (http e) = e.status
http_status _ = 500

abbrev http_response : Exception → Option HttpResponse
http_response (http e) = some e.response
http_response _ = none

-- `httpResponse ? httpResponse.toString() : null`
abbrev printed : Option HttpResponse → Message
printed none = null
printed (some (text [])) = null
printed (some (text (c ∷ s))) = said (c ∷ s)
printed (some (object m r)) = said (codes "[object Object]")

-- `if (httpResponse && httpResponse['message'])`
abbrev with_message : Option HttpResponse → Message → Message
with_message (some (object (some (c ∷ s)) r)) m = said (c ∷ s)
with_message _ m = m

-- `response.message`
abbrev message_field : Option HttpResponse → Message
message_field (some (object (some s) r)) = said s
message_field _ = undefined

-- `response.retryAfter`, if it is truthy.
abbrev retry_field : Option HttpResponse → Option ℕ
retry_field (some (object m (some n))) = if n == 0 then none else some n
retry_field _ = none

abbrev whole_response : Option HttpResponse → Message
whole_response none = null
whole_response (some r) = whole r

-- `catch`, at a time.
unfoldable pub catch_exception : ℕ → Exception → ResponseError
catch_exception now e =
    let status = http_status e in
    let response = http_response e in
    let first = with_message response (printed response) in
    let limited = if status == 429 then message_field response else first in
    record {
      status_code = status;
      timestamp = now;
      message = if status == 503 then whole_response response else limited;
      retry_after = if status == 429 then retry_field response else none;
    }
