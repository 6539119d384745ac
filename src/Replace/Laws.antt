-- ===== src/Replace/Laws.antt =====
-- A replacement of a pattern that starts with `$`, by a text with no `$`.
use mathlib.Core.List.{append_assoc}
use trash.Prelude.{◌≡◌, refl, ap, ◌∙◌, false, some, [], ◌∷◌, ◌++◌, Text, ==_refl}
use trash.Crypto.Slices.{Lacks}
use trash.Replace.{strip, expand, replace_after, replace}

pub strip-append : (p s : Text) → strip p (p ++ s) ≡ some s
unfolding strip
strip-append [] s = refl
strip-append (c ∷ p) s = rw (==_refl c) (strip-append p s)

expand-Lacks :
    (before matched after r : Text) → Lacks b'$' r → expand false before matched after r ≡ r
unfolding expand
expand-Lacks before matched after [] h = refl
expand-Lacks before matched after (c ∷ r) h =
    rw (h.0) (ap (λ s. c ∷ s) (expand-Lacks before matched after r h.1))

replace_after-first :
    (before p r pre post : Text)
    → Lacks b'$' pre
    → Lacks b'$' r
    → replace_after before (b'$' ∷ p) r (pre ++ (b'$' ∷ (p ++ post)))
      ≡ before ++ (pre ++ (r ++ post))
unfolding replace_after strip
replace_after-first before p r [] post h k =
    rw (strip-append p post, expand-Lacks before (b'$' ∷ p) post r k) (append_assoc before r post)
replace_after-first before p r (c ∷ pre) post h k = rw (h.0) (
    replace_after-first (before ++ c ∷ []) p r pre post h.1 k
    ∙ append_assoc before (c ∷ []) (pre ++ (r ++ post)))

-- The first `$` of the text is that of the pattern.
pub replace-first :
    (p r pre post : Text)
    → Lacks b'$' pre
    → Lacks b'$' r
    → replace (pre ++ (b'$' ∷ (p ++ post))) (b'$' ∷ p) r ≡ pre ++ (r ++ post)
unfolding replace
replace-first p r pre post h k = replace_after-first [] p r pre post h k
