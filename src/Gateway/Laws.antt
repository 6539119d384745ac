-- ===== src/Gateway/Laws.antt =====
-- What reaches the controller through the throttler and the pipe of Gateway.antt.
use trash.Prelude.{
  Option, none, some, ◌∙◌, Bool-cases, ◌≡◌, refl, Bool, true, false, ◌&&◌, List, [], ◌∷◌, Text,
  arith, inl, inr, ◌⊎◌,
}
use trash.Exceptions.{Exception, http, text}
use trash.Runtime.{Runtime}
use trash.World.{Result, ok, err, World, Action}
use trash.Action.{pure}
use trash.Sessions.{JwtConfig}
use trash.Notifications.{Service}
use trash.Filter.{ResponseError, catch_exception}
use trash.Routes
use trash.Routes.{Response, refused, Value, control, respond, handle}
use trash.Validation.{password_is_valid}
use trash.Gateway.{
  Route, refresh, sign_up, sign_up_confirm, sign_in, sign_up_resend, password_recovery,
  password_recovery_confirm, Incoming, Limit, Throttler, throttled, transform, receive, query_dto,
  body_dto, request_of, refuse_errors,
}
use trash.Gateway.Rules.{
  field_text, min_length, is_email, is_uuid, matches_password, passes, email_key, password_key,
  token_key, Field, Values, Dto, Validator, ValidationError, is_valid,
}

-- What is read of a request, where it is a string.
abbrev pub AreTexts : List Field → Type 0
AreTexts [] = Unit
AreTexts (f ∷ fs) = (f ≡ Field.text (field_text f)) × AreTexts fs

-- The values that `request_of` reads.
abbrev pub fields_read : Route → Values → Values → List Field
fields_read (refresh s) query body = []
fields_read sign_up query body = body email_key ∷ body password_key ∷ []
fields_read sign_up_confirm query body = query token_key ∷ []
fields_read sign_in query body = body email_key ∷ body password_key ∷ []
fields_read sign_up_resend query body = body email_key ∷ []
fields_read password_recovery query body = body email_key ∷ []
fields_read password_recovery_confirm query body = query token_key ∷ body password_key ∷ []

-- A password that a request brings to be stored is one that the pattern of the DTOs accepts, and one
-- to sign in with has the length.
abbrev pub IsStrong : Validator → Routes.Request → Type 0
IsStrong v (Routes.Request.sign_up d) = password_is_valid d.password ≡ true
IsStrong v (Routes.Request.sign_in email password) = v.long 8 password ≡ true
IsStrong v (Routes.Request.password_recovery_confirm token password) =
    password_is_valid password ≡ true
IsStrong v _ = Unit

-- The limit of each route on its own, and none for those that get.
abbrev pub asked_limit : Route → Option Limit
asked_limit (refresh s) = none
asked_limit sign_up_confirm = none
asked_limit sign_up_resend = some (record { limit = 1; rate = 60 })
asked_limit password_recovery = some (record { limit = 1; rate = 60 })
asked_limit sign_up = some (record { limit = 5; rate = 60 })
asked_limit sign_in = some (record { limit = 5; rate = 60 })
asked_limit password_recovery_confirm = some (record { limit = 5; rate = 60 })

-- The address that the proxy gives, or the connection's.
abbrev pub client_of : Option Text → Text → Text
client_of none ip = ip
client_of (some address) ip = address

module _ ⦃rt : Runtime⦄ where
  abbrev asked : Throttler → Incoming → Option Limit → Action (Unit {0})
  asked throttler i none = pure tt
  asked throttler i (some limit) = throttler i.route limit (client_of i.forwarded_for i.ip)

  -- What the throttler of the package says of a request in a state: nothing of one that gets.
  abbrev pub verdict : Throttler → Incoming → World → Result (Unit {0}) × World
  verdict throttler i w = asked throttler i (asked_limit i.route) w

  pub throttled-verdict :
      (throttler : Throttler) (i : Incoming) (w : World)
      → throttled throttler i w ≡ verdict throttler i w
  unfolding throttled
  throttled-verdict throttler i w = by_route i.route i.query i.body i.forwarded_for i.ip
    where
      by_route :
          (route : Route) (query body : Values) (forwarded_for : Option Text) (ip : Text)
          → let j : Incoming = record {
            route = route;
            query = query;
            body = body;
            forwarded_for = forwarded_for;
            ip = ip;
          } in
            throttled throttler j w ≡ verdict throttler j w
      by_route (refresh s) query body f ip = refl
      by_route sign_up query body f ip = refl
      by_route sign_up_confirm query body f ip = refl
      by_route sign_in query body f ip = refl
      by_route sign_up_resend query body f ip = refl
      by_route password_recovery query body f ip = refl
      by_route password_recovery_confirm query body f ip = refl

module _ ⦃rt : Runtime⦄ (v : Validator) where
  -- The query and the body pass all rules of their DTOs.
  abbrev pub is_accepted : Incoming → Bool
  is_accepted i =
      is_valid v.email v.uuid v.long (query_dto i.route) i.query
      && is_valid v.email v.uuid v.long (body_dto i.route) i.body

  pub record Refusal (r : Response × World) (w : World) : Type 0 where
    pub error : ResponseError
    pub reply : r.0 ≡ refused error
    pub status : error.status_code ≡ 400
    pub same : r.1 ≡ w

  transform-valid :
      (d : Dto) (values : Values) (w : World)
      → is_valid v.email v.uuid v.long d values ≡ true
      → transform v d values w ≡ (ok tt, w)
  unfolding transform
  transform-valid d values w h = rw ((v.validate-empty d values).1 h) refl

  pub record Raised (r : Result (Unit {0}) × World) (w : World) : Type 0 where
    pub message : Text
    pub raised : r ≡ (err (http (record { status = 400; response = text message })), w)

  refuse_errors-Raised :
      (es : List ValidationError) (w : World) → (es ≡ []) ⊎ (Raised (refuse_errors es w) w)
  refuse_errors-Raised [] w = inl refl
  refuse_errors-Raised (e ∷ es) w = inr (record { message = _; raised = refl })

  transform-invalid :
      (d : Dto) (values : Values) (w : World)
      → is_valid v.email v.uuid v.long d values ≡ false
      → Raised (transform v d values w) w
  unfolding transform
  transform-invalid d values w h = elim (refuse_errors-Raised (v.validate d values) w) [
    | inl empty ↦ let valid = (v.validate-empty d values).0 empty in absurd (cc)
    | inr raised ↦ raised
  ]

  module _ (throttler : Throttler) (config : JwtConfig) (services : List Service) (i : Incoming)
      (w w' : World) where
    abbrev request : Routes.Request
    request = request_of i.route i.query i.body

    passed :
        throttled throttler i w ≡ (ok tt, w')
        → is_accepted i ≡ true
        → receive v throttler config services i w ≡ handle config services request w'
    unfolding receive handle
    passed through h =
        let query = transform-valid (query_dto i.route) i.query w' (ground arith) in
        let body = transform-valid (body_dto i.route) i.body w' (ground arith) in
        rw (through, query, body) refl

    invalid_query :
        throttled throttler i w ≡ (ok tt, w')
        → is_valid v.email v.uuid v.long (query_dto i.route) i.query ≡ false
        → Refusal (receive v throttler config services i w) w'
    unfolding receive catch_exception
    invalid_query through h =
        let query = transform-invalid (query_dto i.route) i.query w' h in
        rw (through, query.raised) (record { error = _; reply = refl; status = refl; same = refl })

    invalid_body :
        throttled throttler i w ≡ (ok tt, w')
        → is_valid v.email v.uuid v.long (query_dto i.route) i.query ≡ true
        → is_valid v.email v.uuid v.long (body_dto i.route) i.body ≡ false
        → Refusal (receive v throttler config services i w) w'
    unfolding receive catch_exception
    invalid_body through k h =
        let query = transform-valid (query_dto i.route) i.query w' k in
        let body = transform-invalid (body_dto i.route) i.body w' h in
        rw (through, query, body.raised)
          (record { error = _; reply = refl; status = refl; same = refl })

    held :
        (x : Exception)
        → throttled throttler i w ≡ (err x, w')
        → receive v throttler config services i w ≡ (refused (catch_exception w'.now x), w')
    unfolding receive
    held x h = rw h refl

    -- With the verdict of the throttler, which is asked of every route but those that get, with the
    -- route's own limit and the client's address: where it lets a request through, it is answered by
    -- `handle` if its query and its body pass all rules of their DTOs, and by a 400 and with nothing
    -- changed if they do not; where it raises, that exception is the answer.
    pub receive_lem :
        (verdict throttler i w ≡ (ok tt, w')
          → (is_accepted i ≡ true
              → receive v throttler config services i w ≡ handle config services request w')
            × (is_accepted i ≡ false → Refusal (receive v throttler config services i w) w'))
        × ((x : Exception)
            → verdict throttler i w ≡ (err x, w')
            → receive v throttler config services i w ≡ (refused (catch_exception w'.now x), w'))
    receive_lem =
        let is = throttled-verdict throttler i w in
        (
          λ let_in. (
            passed (is ∙ let_in),
            λ h. elim (Bool-cases (is_valid v.email v.uuid v.long (query_dto i.route) i.query)) [
              | inl query ↦ invalid_body (is ∙ let_in) query (ground arith)
              | inr query ↦ invalid_query (is ∙ let_in) query
            ],
          ),
          λ x raised. held x (is ∙ raised),
        )

  email_text :
      (f : Field) → passes v.email v.uuid v.long is_email f ≡ true → f ≡ Field.text (field_text f)
  email_text Field.missing h = absurd (ground arith)
  email_text Field.other h = absurd (ground arith)
  email_text (Field.text s) h = refl

  uuid_text :
      (f : Field) → passes v.email v.uuid v.long is_uuid f ≡ true → f ≡ Field.text (field_text f)
  uuid_text Field.missing h = absurd (ground arith)
  uuid_text Field.other h = absurd (ground arith)
  uuid_text (Field.text s) h = refl

  password_text :
      (f : Field)
      → passes v.email v.uuid v.long matches_password f ≡ true
      → (f ≡ Field.text (field_text f)) × (password_is_valid (field_text f) ≡ true)
  password_text Field.missing h = absurd (ground arith)
  password_text Field.other h = absurd (ground arith)
  password_text (Field.text s) h = (refl, h)

  length_text :
      (f : Field)
      → passes v.email v.uuid v.long (min_length 8) f ≡ true
      → (f ≡ Field.text (field_text f)) × (v.long 8 (field_text f) ≡ true)
  length_text Field.missing h = absurd (ground arith)
  length_text Field.other h = absurd (ground arith)
  length_text (Field.text s) h = (refl, h)

  accepted :
      (r : Route) (query body : Values)
      → (is_valid v.email v.uuid v.long (query_dto r) query
          && is_valid v.email v.uuid v.long (body_dto r) body)
        ≡ true
      → AreTexts (fields_read r query body) × IsStrong v (request_of r query body)
  accepted (refresh s) query body h = (tt, tt)
  accepted sign_up query body h =
      let e = email_text (body email_key) (ground arith) in
      let p = password_text (body password_key) (ground arith) in ((e, (p.0, tt)), p.1)
  accepted sign_up_confirm query body h = ((uuid_text (query token_key) (ground arith), tt), tt)
  accepted sign_in query body h =
      let e = email_text (body email_key) (ground arith) in
      let p = length_text (body password_key) (ground arith) in ((e, (p.0, tt)), p.1)
  accepted sign_up_resend query body h = ((email_text (body email_key) (ground arith), tt), tt)
  accepted password_recovery query body h = ((email_text (body email_key) (ground arith), tt), tt)
  accepted password_recovery_confirm query body h =
      let t = uuid_text (query token_key) (ground arith) in
      let p = password_text (body password_key) (ground arith) in ((t, (p.0, tt)), p.1)

  -- A request that is accepted has a string wherever the controller's method reads a value; a
  -- password that it brings to be stored is one that the pattern of the DTOs accepts, and one to
  -- sign in with has at least 8 characters, as the validator counts them.
  pub is_accepted-AreTexts :
      (i : Incoming)
      → is_accepted i ≡ true
      → AreTexts (fields_read i.route i.query i.body)
        × IsStrong v (request_of i.route i.query i.body)
  is_accepted-AreTexts i h = accepted i.route i.query i.body h
