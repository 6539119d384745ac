-- ===== src/Tests/Libs.antt =====
-- The theorems on what the applications share, at concrete states: a cipher that adds one to each
-- unit, a queue of jobs and a query.
use trash.Prelude.{
  ◌==◌, false, ℕ, zero, suc, ◌+◌, ◌-◌, ◌≤◌, ◌≡◌, ◌≢◌, refl, true, Option, none, some, List, [], ◌∷◌,
  ◌++◌, Text, codes, length, arith,
}
use trash.Exceptions.{text, not_found_exception, operation_not_found}
use trash.Filter.{catch_exception}
use trash.Filter.Laws.{
  own_status, own_message, own_response, limit_message, limit_seconds, catch-reply,
}
use trash.Crypto.{
  is_unicode, hash, hash_serialize, CryptoLib, CryptoUtils, Payload, text, encrypt, decrypt,
}
use trash.Crypto.Slices.{without}
use trash.Crypto.Laws.{decrypt-encrypt, decrypt-mac}
use trash.Sessions.Decimal.{decimal}
use trash.Queues.{Job, Queue, out_of_fuel, restart_queue}
use trash.Queues.Laws.{restart_queue-ends}
use trash.Query.{flag}
use trash.Validation.{password_is_valid, all}
use trash.Validation.Laws.{any, password_lem}
use trash.Query.Laws.{OperationOptions, Exclusive, common_build-Exclusive}

abbrev raised : Text → Text
raised [] = []
raised (c ∷ s) = suc c ∷ raised s

abbrev lowered : Text → Text
lowered [] = []
lowered (c ∷ s) = (c - 1) ∷ lowered s

lowered-raised : (s : Text) → lowered (raised s) ≡ s
lowered-raised [] = refl
lowered-raised (c ∷ s) = let ih = lowered-raised s in ground arith

same_text : (s t : Text) → some s ≡ some t → s ≡ t
same_text s t e = cc

-- A payload as one text: each part with a mark before every unit, and another at its end.
abbrev marked : Text → Text → Text
marked [] rest = 0 ∷ rest
marked (c ∷ s) rest = 1 ∷ c ∷ marked s rest

abbrev unmarked : Text → Option (Text × Text)
unmarked [] = none
unmarked (zero ∷ rest) = some ([], rest)
unmarked (suc _ ∷ []) = none
unmarked (suc _ ∷ c ∷ s) = elim (unmarked s) [ none ↦ none | some p ↦ some (c ∷ p.0, p.1) ]

unmarked-marked : (s rest : Text) → unmarked (marked s rest) ≡ some (s, rest)
unmarked-marked [] rest = refl
unmarked-marked (c ∷ s) rest = rw (unmarked-marked s rest)

abbrev pack : Payload → Text
pack p = marked p.iv (marked p.value p.mac)

abbrev unpack_value : Text → Option (Text × Text) → Option Payload
unpack_value iv none = none
unpack_value iv (some p) = some (record { iv = iv; value = p.0; mac = p.1 })

abbrev unpack_iv : Option (Text × Text) → Option Payload
unpack_iv none = none
unpack_iv (some p) = unpack_value p.0 (unmarked p.1)

unpack-pack : (p : Payload) → unpack_iv (unmarked (pack p)) ≡ some p
unpack-pack p = rw (unmarked-marked p.iv _, unmarked-marked p.value _)

abbrev lib : CryptoLib
lib = record {
  encrypt_with = λ algorithm key iv t. some (raised t);
  decrypt_with = λ algorithm key iv e. some (lowered e);
  decrypt-encrypt = λ algorithm key iv t e u h. rw (← same_text _ _ h, lowered-raised t);
  hmac = λ sha key t. key ++ t;
  base64 = raised;
  from_base64 = lowered;
  from-base64 = lowered-raised;
  pack = pack;
  unpack = λ t. unpack_iv (unmarked t);
  unpack-pack = unpack-pack;
}

abbrev crypto : CryptoUtils
crypto = record { algorithm = codes "a"; sha = codes "s"; key = codes "k" }

abbrev a_payload : Payload
a_payload = record { iv = codes "i"; value = codes "v"; mac = codes "m" }

-- A text with a quote loses it.
decrypt-encrypt_example :
    decrypt lib crypto (
      pack (record {
        iv = raised (codes "iv");
        value = raised (codes "s:3:\"a\"b;\"");
        mac = codes "k" ++ raised (codes "iv") ++ raised (codes "s:3:\"a\"b;\"");
      }))
    ≡ some (codes "ab")
unfolding encrypt hash hash_serialize decimal without is_unicode
decrypt-encrypt_example =
    decrypt-encrypt lib crypto (codes "iv") (text (codes "a\"b"))
      (pack (record {
        iv = raised (codes "iv");
        value = raised (codes "s:3:\"a\"b;\"");
        mac = codes "k" ++ raised (codes "iv") ++ raised (codes "s:3:\"a\"b;\"");
      }))
      refl refl

decrypt-mac_example :
    decrypt lib crypto (pack (record a_payload { mac = codes "x" }))
    ≡ decrypt lib crypto (pack a_payload)
decrypt-mac_example = decrypt-mac lib crypto a_payload (codes "x")

catch-reply_example :
    let e = not_found_exception operation_not_found in
    let reply = catch_exception 7 e in
    (reply.status_code ≡ own_status e)
    × (reply.timestamp ≡ 7)
    × ((own_status e == 429) ≡ false
        → (own_status e == 503) ≡ false
        → (reply.message ≡ own_message e) × (reply.retry_after ≡ none))
    × (own_status e ≡ 429
        → (reply.message ≡ limit_message e) × (reply.retry_after ≡ limit_seconds e))
    × (own_status e ≡ 503 → (reply.message ≡ own_response e) × (reply.retry_after ≡ none))
catch-reply_example = catch-reply 7 (not_found_exception operation_not_found)

-- A queue with one failed job, which waits once it is retried.
abbrev failed_page : ℕ → ℕ → List Job → List Job
failed_page zero end_ (j ∷ q) = j ∷ []
failed_page start end_ q = []

page-length : (start end_ : ℕ) (q : List Job) → length (failed_page start end_ q) ≤ 1 + end_ - start
page-length zero end_ [] = omega arith
page-length zero end_ (j ∷ q) = omega arith
page-length (suc start) end_ q = omega arith

abbrev queue : Queue
queue = record {
  Jobs = List Job;
  get_failed = failed_page;
  retry = λ j q. some [];
  length-get_failed = page-length;
}

abbrev job : Job
job = record { id = 1; finished_on = 50 }

restart_queue-ends_example : restart_queue queue 100 10 3 (job ∷ []) ≢ out_of_fuel
restart_queue-ends_example = restart_queue-ends queue 100 10 0 (job ∷ [])

abbrev lock_options : OperationOptions
lock_options = record {
  filter = none;
  join = none;
  lock = some (flag true);
  query_runner = true;
  cached = true;
  pagination = none;
  sort = none;
}

common_build-Exclusive_example : Exclusive lock_options none
common_build-Exclusive_example = common_build-Exclusive lock_options none

-- A digit is all that the pattern takes for a special character.
password_lem_example : password_is_valid (codes "Passw0rd") ≡ true
unfolding any all
password_lem_example = password_lem (codes "Passw0rd")
