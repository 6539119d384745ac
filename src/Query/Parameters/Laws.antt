-- ===== src/Query/Parameters/Laws.antt =====
-- What the parameters of a query become in the statement of `updateFrom`.
use mathlib.Core.List.{append_assoc}
use trash.Prelude.{
  none, Option, Option-cases, Bool-cases, inl, inr, ==_iff, ◌==◌, subst, join, ℕ, suc, ◌≡◌, refl,
  sym, ap, ◌∙◌, some, List, [], ◌∷◌, ◌++◌, map, Text, codes,
}
use trash.Crypto.Slices.{Lacks, Lacks-append}
use trash.Sessions.Decimal.{decimal}
use trash.Replace.{strip}
use trash.Replace.Laws.{replace-first, strip-append}
use trash.Entity.{from}
use trash.Query.Parameters.{
  Element, element_text, joined, Sql, from_word, update_from, Param, param_text, placeholder,
  query_params_assign, assigned, replace_some,
}

-- A parameter with the text that it is to become, and the SQL after its placeholder.
pub record Part : Type 0 where
  pub param : Param
  pub value : Text
  pub rest : Text

-- What stands in the SQL for a parameter: a string in quotes, the elements of an array with commas
-- between them, each string of them in quotes, and anything else as it is printed. A value that is
-- undefined is not written.
pub data ElementText : Element → Text → Type 0 where
  of_string : (s : Text) → ElementText (Element.string s) (b'"' ∷ (s ++ b'"' ∷ []))
  of_printed : (s : Text) → ElementText (Element.printed s) s

pub data ElementsText : List Element → Text → Type 0 where
  of_none : ElementsText [] []
  of_one : {e : Element} {t : Text} → ElementText e t → ElementsText (e ∷ []) t
  of_more :
      {e f : Element} {es : List Element} {t u : Text}
      → ElementText e t
      → ElementsText (f ∷ es) u
      → ElementsText (e ∷ (f ∷ es)) (t ++ (b',' ∷ u))

pub data ParamText : Param → Text → Type 0 where
  string : (s : Text) → ParamText (Param.string s) (b'"' ∷ (s ++ b'"' ∷ []))
  array : {es : List Element} {t : Text} → ElementsText es t → ParamText (Param.array es) t
  printed : (s : Text) → ParamText (Param.printed s) s

element_text-is : {e : Element} {t : Text} → ElementText e t → element_text e ≡ t
element_text-is (of_string s) = refl
element_text-is (of_printed s) = refl

joined-is : {es : List Element} {t : Text} → ElementsText es t → joined es ≡ t
unfolding join
joined-is of_none = refl
joined-is (of_one h) = element_text-is h
joined-is (of_more {f = f} {es = es} {t = t} h hs) =
    rw (element_text-is h, joined-is hs) (append_assoc t (b',' ∷ []) _)

param_text-is : {p : Param} {t : Text} → ParamText p t → param_text p ≡ some t
param_text-is (string s) = refl
param_text-is (array h) = ap some (joined-is h)
param_text-is (printed s) = refl

-- Where a text has `FROM`, what stands from the first one on.
pub data FromFirst : Text → Option Text → Type 0 where
  here : (rest : Text) → FromFirst (codes "FROM" ++ rest) (some (codes "FROM" ++ rest))
  later :
      {c : ℕ} {s : Text} {r : Option Text}
      → ((rest : Text) → ¬ (c ∷ s ≡ codes "FROM" ++ rest))
      → FromFirst s r
      → FromFirst (c ∷ s) r
  nowhere : FromFirst [] none

-- The value is the parameter's, and neither text has a `$`.
pub record IsPlain (p : Part) : Type 0 where
  pub value_of : ParamText p.param p.value
  pub plain_value : Lacks b'$' p.value
  pub plain_rest : Lacks b'$' p.rest

abbrev pub ArePlain : List Part → Type 0
ArePlain [] = Unit {0}
ArePlain (p ∷ ps) = IsPlain p × ArePlain ps

-- SQL with its placeholders the number of the first one given, in the order of the parameters.
abbrev pub with_placeholders : ℕ → List Part → Text
with_placeholders n [] = []
with_placeholders n (p ∷ ps) = b'$' ∷ (decimal n ++ (p.rest ++ with_placeholders (suc n) ps))

abbrev pub with_values : List Part → Text
with_values [] = []
with_values (p ∷ ps) = p.value ++ (p.rest ++ with_values ps)

moved : (a b c d : Text) → a ++ (b ++ (c ++ d)) ≡ (a ++ (b ++ c)) ++ d
moved a b c d = ap (λ s. a ++ s) (sym (append_assoc b c d)) ∙ sym (append_assoc a (b ++ c) d)

assigned_lem :
    (start after : Text) (i : ℕ) (p : Part)
    → Lacks b'$' start
    → IsPlain p
    → assigned (start ++ (placeholder i ++ after)) i p.param ≡ start ++ (p.value ++ after)
assigned_lem start after i p h k =
    ap (replace_some (start ++ (placeholder i ++ after)) (placeholder i)) (param_text-is k.value_of)
    ∙ replace-first (decimal (suc i)) p.value start after h k.plain_value

query_params_assign_lem :
    (start : Text) (i : ℕ) (ps : List Part)
    → Lacks b'$' start
    → ArePlain ps
    → query_params_assign (start ++ with_placeholders (suc i) ps) i (map (λ p. p.param) ps)
      ≡ start ++ with_values ps
unfolding query_params_assign
query_params_assign_lem start i [] h k = refl
query_params_assign_lem start i (p ∷ ps) h (k, ks) =
    let next = start ++ (p.value ++ p.rest) in
    let after = p.rest ++ with_placeholders (suc (suc i)) ps in
    let plain =
      Lacks-append b'$' start (p.value ++ p.rest) h
        (Lacks-append b'$' p.value p.rest k.plain_value k.plain_rest) in
    ap (λ s. query_params_assign s (suc i) (map (λ q. q.param) ps))
      (assigned_lem start after i p h k
        ∙ moved start p.value p.rest (with_placeholders (suc (suc i)) ps))
    ∙ query_params_assign_lem next (suc i) ps plain ks
    ∙ sym (moved start p.value p.rest (with_values ps))

-- The SQL of a query with the parameters of its parts.
abbrev pub sql : Text → List Part → Sql
sql start ps = record {
  query = start ++ with_placeholders 1 ps;
  parameters = map (λ p. p.param) ps;
}

strip-some : (p s rest : Text) → strip p s ≡ some rest → s ≡ p ++ rest
unfolding strip
strip-some [] s rest h = cc h
strip-some (p ∷ ps) [] rest h = absurd (cc h)
strip-some (p ∷ ps) (c ∷ s) rest h = elim (Bool-cases (c == p)) [
  | inl same ↦ let tail = rw same at h in cc ((==_iff c p).0 same, strip-some ps s rest tail)
  | inr other ↦ let bad = rw other at h in absurd (cc bad)
]

from_word-none :
    (word s : Text) (c : ℕ) → strip word (c ∷ s) ≡ none → from_word word (c ∷ s) ≡ from_word word s
unfolding from_word
from_word-none word s c h = rw (h, from_word) refl

from_word-some :
    (word s rest : Text) (c : ℕ)
    → strip word (c ∷ s) ≡ some rest
    → from_word word (c ∷ s) ≡ some (c ∷ s)
unfolding from_word
from_word-some word s rest c h = rw (h, from_word) refl

from_word-empty : from_word (codes "FROM") [] ≡ none
unfolding from_word strip
from_word-empty = refl

from_word-FromFirst : (s : Text) → FromFirst s (from_word (codes "FROM") s)
from_word-FromFirst [] = rw from_word-empty nowhere
from_word-FromFirst (c ∷ s) = elim (Option-cases (strip (codes "FROM") (c ∷ s))) [
  | inl missing ↦ subst (FromFirst (c ∷ s)) (sym (from_word-none (codes "FROM") s c missing)) (
      later
        (λ rest h.
          let hit = ap (strip (codes "FROM")) h ∙ strip-append (codes "FROM") rest in
          cc (hit, missing))
        (from_word-FromFirst s))
  | inr (rest, found) ↦
      subst (FromFirst (c ∷ s)) (sym (from_word-some (codes "FROM") s rest c found)) (
        subst (λ t. FromFirst t (some t)) (sym (strip-some (codes "FROM") (c ∷ s) rest found))
          (here rest))
]

-- Where in both queries the placeholders `$1`, `$2` and so on stand in the order of the parameters,
-- and no value and no other part of the SQL has a `$`: in the statement of `updateFrom` each
-- placeholder is replaced by the value of its own parameter, however many there are, and nothing
-- else of the update changes; after it comes the select from its first `FROM` on, or all of it where
-- it has none.
pub update_from_lem :
    (select update : Text) (ps qs : List Part)
    → Lacks b'$' select
    → ArePlain ps
    → Lacks b'$' update
    → ArePlain qs
    → (tail : Option Text) × FromFirst (select ++ with_values ps) tail
      × (update_from (sql select ps) (sql update qs)
          ≡ update ++ with_values qs ++ codes " " ++ from tail (select ++ with_values ps))
unfolding update_from
update_from_lem select update ps qs h k g l = (
  from_word (codes "FROM") (select ++ with_values ps),
  from_word-FromFirst (select ++ with_values ps),
  rw (query_params_assign_lem select 0 ps h k, query_params_assign_lem update 0 qs g l) refl,
)
