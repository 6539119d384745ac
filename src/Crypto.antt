-- ===== src/Crypto.antt =====
-- `CryptoUtils` of libs/utils/src/crypto.utils.ts. The hashes and the cipher are those of Node's
-- `crypto`, and JSON and base64 are the language's: they are the fields of `CryptoLib`.
pub mod Slices
pub mod Laws
use mathlib.Core.Option
use trash.Prelude.{
  ℕ, suc, ◌≡◌, Bool, true, false, not, ◌&&◌, leb, Option, none, some, List, [], ◌∷◌, ◌++◌, Text,
  codes, length, ◌==◌, if◌then◌else◌,
}
use trash.Entity.{from}
use trash.Sessions.Decimal.{decimal}
use Slices.{index_of, last_index_of, substring, without}

-- `IGetJsonPayloadResponse`
pub record Payload : Type 0 where
  pub iv : Text
  pub value : Text
  pub mac : Text

-- Whether a text of UTF-16 units is one of Unicode: every high surrogate is followed by a low one, and
-- no low one stands elsewhere. The flag: whether the unit before was a high one.
abbrev is_high : ℕ → Bool
is_high c = leb 55296 c && leb c 56319

abbrev is_low : ℕ → Bool
is_low c = leb 56320 c && leb c 57343

unfoldable pub is_unicode : Bool → Text → Bool
is_unicode true [] = false
is_unicode false [] = true
is_unicode true (c ∷ s) = is_low c && is_unicode false s
is_unicode false (c ∷ s) = not (is_low c) && is_unicode (is_high c) s

-- `encrypt_with` is `createCipheriv` with `update` and `final`, from text, as UTF-8, to base64;
-- `decrypt_with` is the way back, and UTF-8 keeps a text of Unicode. Either throws for an algorithm, a key or an initial vector that do not fit.
-- `pack` is the base64 of the payload's JSON.
pub record CryptoLib : Type 0 where
  pub encrypt_with : Text → Text → Text → Text → Option Text
  pub decrypt_with : Text → Text → Text → Text → Option Text
  pub decrypt-encrypt :
      (algorithm key iv t e : Text)
      → is_unicode false t ≡ true
      → encrypt_with algorithm key iv t ≡ some e
      → decrypt_with algorithm key iv e ≡ some t
  pub hmac : Text → Text → Text → Text
  pub base64 : Text → Text
  pub from_base64 : Text → Text
  pub from-base64 : (t : Text) → from_base64 (base64 t) ≡ t
  pub pack : Payload → Text
  pub unpack : Text → Option Payload
  pub unpack-pack : (p : Payload) → unpack (pack p) ≡ some p

-- The settings of an instance.
pub record CryptoUtils : Type 0 where
  pub algorithm : Text
  pub sha : Text
  pub key : Text

-- `ICryptoOptions`; the empty text counts as missing.
pub record CryptoOptions : Type 0 where
  pub key : Option Text
  pub sha : Option Text
  pub algorithm : Option Text

-- `value: string | number`; a number is the text that the language prints of it.
pub data Value : Type 0 where
  text : Text → Value
  number : Text → Value

abbrev quote : Text
quote = codes "\""

-- `_hashSerialize`: a number has no `length`.
unfoldable pub hash_serialize : Value → Text
hash_serialize (text s) = codes "s:" ++ decimal (length s) ++ codes ":\"" ++ s ++ codes ";\""
hash_serialize (number n) = codes "s:undefined" ++ codes ":\"" ++ n ++ codes ";\""

abbrev after : Option ℕ → ℕ
after none = 0
after (some i) = suc i

-- `_hashDeserialize`: `-1 + 1` is 0, and `substring` takes a negative end for 0.
unfoldable pub hash_deserialize : Text → Text
hash_deserialize s =
    without b'"' (substring (after (index_of b'"' s)) (from (last_index_of b';' s) 0) s)

module _ (lib : CryptoLib) where
  abbrev chosen : Option Text → Text → Text
  chosen none default = default
  chosen (some []) default = default
  chosen (some (c ∷ s)) default = c ∷ s

  abbrev chosen_key : Option Text → Text → Text
  chosen_key none default = default
  chosen_key (some []) default = default
  chosen_key (some (c ∷ s)) default = lib.from_base64 (c ∷ s)

  -- The constructor, with `DEFAULT_SETTINGS`.
  unfoldable pub new : CryptoOptions → CryptoUtils
  new options = record {
    algorithm = chosen options.algorithm (codes "aes-256-cbc");
    sha = chosen options.sha (codes "sha256");
    key =
        chosen_key options.key
          (lib.from_base64 (codes "bDHCA+O80kSJFGbz+tRb7H8XSUGULOUhLhthkM57LGE="));
  }

  -- `_hash`
  unfoldable pub hash : CryptoUtils → Text → Text → Text
  hash c iv value = lib.hmac c.sha c.key (iv ++ value)

  abbrev packed : CryptoUtils → Text → Text → Text
  packed c iv encrypted =
      lib.pack
        (record { iv = lib.base64 iv; value = encrypted; mac = hash c (lib.base64 iv) encrypted })

  -- `encrypt`, with the sixteen random bytes as an argument; `none` where the cipher throws.
  unfoldable pub encrypt : CryptoUtils → Text → Value → Option Text
  encrypt c iv value =
      Option.map (packed c iv) (lib.encrypt_with c.algorithm c.key iv (hash_serialize value))

  abbrev decrypt_payload : CryptoUtils → Option Payload → Option Text
  decrypt_payload c none = none
  decrypt_payload c (some p) =
      Option.map hash_deserialize
        (lib.decrypt_with c.algorithm c.key (lib.from_base64 p.iv) p.value)

  -- `decrypt`; `none` where the payload cannot be parsed, or the cipher throws.
  unfoldable pub decrypt : CryptoUtils → Text → Option Text
  decrypt c payload = decrypt_payload c (lib.unpack payload)
