-- ===== src/Utils.antt =====
-- The string helpers of libs/utils/src/utils.ts. `getUUID` stands in Database, and the ones that
-- only wait or ask for random bytes are not modelled.
pub mod Laws
use trash.Prelude.{
  ℕ, zero, suc, ◌-◌, ◌*◌, Bool, true, false, ◌&&◌, ◌||◌, Option, none, some, List, [], ◌∷◌, ◌++◌,
  Text, codes, length, leb, ◌==◌, if◌then◌else◌,
}
use trash.Crypto.Slices.{take, drop}
use trash.Replace.{replace_all}
use trash.Validation.{is_lower, is_upper, is_digit, all}

abbrev is_hex_digit : ℕ → Bool
is_hex_digit c = is_digit c || (leb b'a' c && leb c b'f') || (leb b'A' c && leb c b'F')

abbrev hex_after : Text → Bool
hex_after (a ∷ b ∷ s) = a == b'0' && (b == b'x' || b == b'X') && all is_hex_digit s
hex_after _ = false

-- `/^(-)?0x[0-9a-f]*$/i`, of a string or of a number's text.
unfoldable pub is_hex_strict : Text → Bool
is_hex_strict [] = false
is_hex_strict (c ∷ s) = if c == b'-' then hex_after s else hex_after (c ∷ s)

-- `data[i]`, as the text that `replace` puts in.
abbrev pub item_text : List Text → ℕ → Text
item_text [] n = codes "undefined"
item_text (s ∷ rest) zero = s
item_text (s ∷ rest) (suc n) = item_text rest n

-- The match of `/({\d})/` at the start of a text: the digit.
abbrev pub slot : Text → Option ℕ
slot (a ∷ b ∷ c ∷ s) = if a == b'{' && is_digit b && c == b'}' then some (b - 48) else none
slot _ = none

-- From a place on, where some units of the last match are still to be passed.
unfoldable pub inject_from : List Text → ℕ → Text → Text
inject_from data_ n [] = []
inject_from data_ (suc n) (c ∷ s) = inject_from data_ n s
inject_from data_ zero (c ∷ s) = elim (slot (c ∷ s)) [
  | none ↦ c ∷ inject_from data_ zero s
  | some i ↦ item_text data_ i ++ inject_from data_ 2 s
]

unfoldable pub string_inject : Text → List Text → Text
string_inject str data_ = inject_from data_ zero str

abbrev pub is_quote : ℕ → Bool
is_quote c = c == b'`' || c == b'\'' || c == b'"'

unfoldable pub quotes_escape : Text → Text
quotes_escape [] = []
quotes_escape (c ∷ s) =
    let rest = quotes_escape s in if is_quote c then b'\\' ∷ c ∷ rest else c ∷ rest

-- `[A-HJ-NP-Za-km-z1-9]`
abbrev is_base58_digit : ℕ → Bool
is_base58_digit c =
    (leb b'A' c && leb c b'H')
    || (leb b'J' c && leb c b'N')
    || (leb b'P' c && leb c b'Z')
    || (leb b'a' c && leb c b'k')
    || (leb b'm' c && leb c b'z')
    || (leb b'1' c && leb c b'9')

unfoldable pub is_base58 : Text → Bool
is_base58 value = all is_base58_digit value

-- `/^0x[a-fA-F0-9]{40}$/g`
unfoldable pub is_eth_address : Text → Bool
is_eth_address (a ∷ b ∷ s) = a == b'0' && b == b'x' && all is_hex_digit s && length s == 40
is_eth_address _ = false

-- The entries of `replacements`, one after the other, in one text.
unfoldable pub replaced_all : List (Text × Text) → Text → Text
replaced_all [] text = text
replaced_all ((key, value) ∷ entries) text = replaced_all entries (replace_all text key value)

unfoldable pub replace_text : List (Text × Text) → List Text → List Text
replace_text replacements [] = []
replace_text replacements (text ∷ texts) =
    replaced_all replacements text ∷ replace_text replacements texts

pub data Item : Type 0 where
  number nan other : Item

abbrev pub is_number : Item → Bool
is_number number = true
is_number _ = false

-- `isNumberCheck` of an array, and of one value.
unfoldable pub are_numbers : List Item → Bool
are_numbers [] = true
are_numbers (item ∷ items) = is_number item && are_numbers items

unfoldable pub is_number_check : Item → Bool
is_number_check number = true
is_number_check nan = true
is_number_check other = false

pub data Variant : Type 0 where
  long short : Variant

-- `slice(length - 4, length)`: a negative start counts from the end.
abbrev pub last_four : Text → Text
last_four address = let n = length address in drop (if leb 4 n then n - 4 else 2 * n - 4) address

unfoldable pub get_short_address : Text → Variant → Text
get_short_address [] variant = []
get_short_address (c ∷ s) long = take 2 (c ∷ s) ++ codes "..." ++ last_four (c ∷ s)
get_short_address (c ∷ s) short = codes "..." ++ last_four (c ∷ s)
