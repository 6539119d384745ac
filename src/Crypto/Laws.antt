-- ===== src/Crypto/Laws.antt =====
-- What `CryptoUtils` gives back of what it was given.
use trash.Prelude.{
  Bool, true, false, ◌&&◌, leb, subst, inl, inr, Option-cases, ℕ, suc, ◌≡◌, refl, ap, sym, ◌∙◌,
  some, [], ◌∷◌, ◌++◌, Text, arith, codes, length,
}
use mathlib.Core.List.{append_assoc}
use trash.Sessions.Decimal.{decimal, decimal-Digits, AreDigits}
use trash.Crypto.{
  CryptoLib, CryptoUtils, Payload, Value, text, number, hash_serialize, hash_deserialize, encrypt,
  decrypt, is_unicode,
}
use trash.Crypto.Slices.{
  index_of, last_index_of, substring, without, Lacks, Lacks-append, index_of-append,
  last_index_of-append, substring-append, length-append,
}

-- Units below the surrogates.
abbrev AreAscii : Text → Type 0
AreAscii [] = Unit {0}
AreAscii (c ∷ s) = (leb c 127 ≡ true) × AreAscii s

AreDigits-AreAscii : (s : Text) → AreDigits s → AreAscii s
AreDigits-AreAscii [] h = tt
AreDigits-AreAscii (c ∷ s) h = (ground (arith, h.1), AreDigits-AreAscii s h.2)

AreDigits-Lacks : (s : Text) → AreDigits s → Lacks b'"' s
AreDigits-Lacks [] h = tt
AreDigits-Lacks (c ∷ s) h = (ground (arith, h.0), AreDigits-Lacks s h.2)

-- A text between `head:"` and `;"`, with no quote in the head.
deserialize-framed :
    (head s : Text)
    → Lacks b'"' head
    → hash_deserialize (head ++ b'"' ∷ [] ++ s ++ codes ";\"") ≡ without b'"' s
unfolding hash_deserialize
deserialize-framed head s h =
    let p : Text = head ++ b'"' ∷ [] in
    let t : Text = codes ";\"" in
    let first : index_of b'"' (p ++ s ++ t) ≡ some (length head) =
      ap (index_of b'"') (append_assoc p s t ∙ append_assoc head (b'"' ∷ []) (s ++ t))
      ∙ index_of-append b'"' head (s ++ t) h in
    let last : last_index_of b';' (p ++ s ++ t) ≡ some (length (p ++ s)) =
      last_index_of-append b';' (p ++ s) (b'"' ∷ []) (refl, tt) in
    let starts : suc (length head) ≡ length p = omega (arith, length-append head (b'"' ∷ [])) in
    let middle : substring (suc (length head)) (length (p ++ s)) (p ++ s ++ t) ≡ s =
      rw starts (substring-append p s t) in
    rw (first, last) (ap (without b'"') middle)

abbrev pub content : Value → Text
content (text s) = s
content (number n) = n

digits-Lacks : (n : ℕ) → Lacks b'"' (decimal n)
digits-Lacks n = AreDigits-Lacks (decimal n) (decimal-Digits n)

-- What is deserialized is what was serialized, a number as it is printed, less every quote in it.
pub deserialize-serialize :
    (v : Value) → hash_deserialize (hash_serialize v) ≡ without b'"' (content v)
unfolding hash_serialize
deserialize-serialize (text s) =
    let d = decimal (length s) in
    let head : Text = codes "s:" ++ d ++ codes ":" in
    let joined : codes "s:" ++ d ++ codes ":\"" ≡ head ++ b'"' ∷ [] =
      sym (append_assoc (codes "s:" ++ d) (codes ":") (b'"' ∷ [])) in
    ap (λ (p : Text). hash_deserialize (p ++ s ++ codes ";\"")) joined
    ∙ deserialize-framed head s
        (refl, (refl, Lacks-append b'"' d (codes ":") (digits-Lacks (length s)) (refl, tt)))
deserialize-serialize (number n) = deserialize-framed (codes "s:undefined" ++ codes ":") n (
  refl,
  (refl, (refl, (refl, (refl, (refl, (refl, (refl, (refl, (refl, (refl, (refl, tt))))))))))),
)

ascii-is_unicode : (s : Text) → AreAscii s → is_unicode false s ≡ true
unfolding is_unicode
ascii-is_unicode [] h = refl
ascii-is_unicode (c ∷ s) (a, h) =
    let high : (leb 55296 c && leb c 56319) ≡ false = ground (arith, a) in
    let low : (leb 56320 c && leb c 57343) ≡ false = ground (arith, a) in
    rw (low, high) (ascii-is_unicode s h)

is_unicode-append :
    (b : Bool) (s t : Text)
    → is_unicode b s ≡ true
    → is_unicode false t ≡ true
    → is_unicode b (s ++ t) ≡ true
unfolding is_unicode
is_unicode-append true [] t h k = absurd (cc h)
is_unicode-append false [] t h k = k
is_unicode-append true (c ∷ s) t h k =
    let rest = is_unicode-append false s t (ground (arith, h)) k in ground (arith, h, rest)
is_unicode-append false (c ∷ s) t h k =
    let rest = is_unicode-append (leb 55296 c && leb c 56319) s t (ground (arith, h)) k in
    ground (arith, h, rest)

serialize-is_unicode :
    (v : Value) → is_unicode false (content v) ≡ true → is_unicode false (hash_serialize v) ≡ true
unfolding hash_serialize is_unicode
serialize-is_unicode (text s) h =
    let d = decimal (length s) in
    let digits = ascii-is_unicode d (AreDigits-AreAscii d (decimal-Digits (length s))) in
    let head = is_unicode-append false d (codes ":\"") digits refl in
    let body = is_unicode-append false (d ++ codes ":\"") s head h in
    is_unicode-append false (d ++ codes ":\"" ++ s) (codes ";\"") body refl
serialize-is_unicode (number n) h = is_unicode-append false n (codes ";\"") h refl

same_payload : (p q : Text) → some p ≡ some q → p ≡ q
same_payload p q e = cc

-- Where the cipher accepts the settings, and the value has no surrogate without its other half: what
-- `encrypt` makes of the value `decrypt` turns back into it, a number as it is printed, less every
-- quote.
pub decrypt-encrypt :
    (lib : CryptoLib) (c : CryptoUtils) (iv : Text) (v : Value) (payload : Text)
    → is_unicode false (content v) ≡ true
    → encrypt lib c iv v ≡ some payload
    → decrypt lib c payload ≡ some (without b'"' (content v))
unfolding decrypt encrypt
decrypt-encrypt lib c iv v payload u e =
    elim (Option-cases (lib.encrypt_with c.algorithm c.key iv (hash_serialize v))) [
      | inl throws ↦ let bad = rw throws at e in cc bad
      | inr (t, made) ↦
          let is = rw made at e in
          let back =
            lib.decrypt-encrypt c.algorithm c.key iv (hash_serialize v) t (serialize-is_unicode v u)
              made in
          subst (λ (p : Text). decrypt lib c p ≡ some (without b'"' (content v)))
            (same_payload _ payload is)
            (rw (lib.unpack-pack _, lib.from-base64 iv, back, deserialize-serialize v))
    ]

-- `decrypt` does not look at the MAC: a payload with another one decrypts to the same.
pub decrypt-mac :
    (lib : CryptoLib) (c : CryptoUtils) (p : Payload) (mac : Text)
    → decrypt lib c (lib.pack (record p { mac = mac })) ≡ decrypt lib c (lib.pack p)
unfolding decrypt
decrypt-mac lib c p mac = rw (lib.unpack-pack p, lib.unpack-pack (record p { mac = mac }))
