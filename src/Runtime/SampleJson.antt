-- ===== src/Runtime/SampleJson.antt =====
-- A JSON writer and reader for the values of `Json`, with a tag in front.
use trash.Prelude.{ℕ, zero, suc, ◌≡◌, refl, false, Option, none, some, [], ◌∷◌, Text, text_eq}
use trash.Runtime.{Json, session, string}

-- A number, or a missing one, in one unit; a text with its length in front.
abbrev write_number : Option ℕ → ℕ
write_number none = 0
write_number (some n) = suc n

abbrev read_number : ℕ → Option ℕ
read_number zero = none
read_number (suc n) = some n

abbrev write_text : Option Text → Text
write_text none = []
write_text (some t) = 1 ∷ t

abbrev read_text : Text → Option Text
read_text [] = none
read_text (c ∷ t) = some t

abbrev pub stringify : Json → Text
stringify (session s) =
    1 ∷ s.user_id ∷ write_number s.created_at ∷ write_number s.updated_at ∷ write_text s.id
stringify (string t) = 0 ∷ t

abbrev pub parse : Text → Option Json
parse (zero ∷ t) = some (string t)
parse (suc _ ∷ u ∷ c ∷ d ∷ t) = some (
    session (record {
      id = read_text t;
      user_id = u;
      created_at = read_number c;
      updated_at = read_number d;
    }))
parse _ = none

read-write_number : (o : Option ℕ) → read_number (write_number o) ≡ o
read-write_number none = refl
read-write_number (some n) = refl

read-write_text : (o : Option Text) → read_text (write_text o) ≡ o
read-write_text none = refl
read-write_text (some t) = refl

pub parse-stringify : (j : Json) → parse (stringify j) ≡ some j
parse-stringify (session s) =
    rw (read-write_text s.id, read-write_number s.created_at, read-write_number s.updated_at)
parse-stringify (string t) = refl

pub stringify_not_empty : (j : Json) → text_eq [] (stringify j) ≡ false
unfolding text_eq
stringify_not_empty (session s) = refl
stringify_not_empty (string t) = refl
