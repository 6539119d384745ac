-- ===== src/Validation/Nested/Laws.antt =====
-- Which nested values `ValidateNested` accepts, and what it says of the others.
use trash.Prelude.{◌≡◌, refl, ap, ◌↔◌, true, some, List, [], ◌∷◌, ◌++◌, Text, codes, join}
use mathlib.Core.List.{append-nil}
use trash.Sessions.Decimal.{decimal}
use trash.Validation.Nested.{array, Constraints, messages, all_valid, validate, default_message}

module _ {V : Type 0} (validate_sync : V → List Constraints) where
  -- Nothing is wrong with any value of the list.
  abbrev pub AllClean : List V → Type 0
  AllClean [] = Unit {0}
  AllClean (v ∷ vs) = (validate_sync v ≡ []) × AllClean vs

  step :
      (v : V) (vs : List V) (es : List Constraints)
      → validate_sync v ≡ es
      → (all_valid validate_sync vs ≡ true ↔ AllClean vs)
      → all_valid validate_sync (v ∷ vs) ≡ true ↔ AllClean (v ∷ vs)
  unfolding all_valid
  step v vs [] e ih = (λ h. (e, ih.0 (rw e at h)), λ h. rw e (ih.1 h.1))
  step v vs (x ∷ es) e ih = (λ h. let bad = rw e at h in absurd (cc bad), λ h. absurd (cc (e, h.0)))

  all_valid-AllClean : (vs : List V) → all_valid validate_sync vs ≡ true ↔ AllClean vs
  unfolding all_valid
  all_valid-AllClean [] = (λ h. tt, λ h. refl)
  all_valid-AllClean (v ∷ vs) = step v vs (validate_sync v) refl (all_valid-AllClean vs)

  -- An array is accepted just when nothing is wrong with any of its elements. If its first element
  -- is right, the message for it names index 0 and no error at all, whatever is wrong with the
  -- others.
  pub validate-array :
      (property : Text) (vs : List V)
      → (validate validate_sync (array vs) ≡ true ↔ AllClean vs)
        × ((v : V)
            → validate_sync v ≡ []
            → default_message validate_sync property (array (v ∷ vs))
              ≡ some (property ++ codes "::index" ++ codes "0" ++ codes " -> "))
  unfolding validate default_message messages join decimal
  validate-array property vs = (
    all_valid-AllClean vs,
    λ v e. rw e (ap some (append-nil (property ++ codes "::index" ++ codes "0" ++ codes " -> "))),
  )
