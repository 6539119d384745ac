-- ===== src/Runtime/Finds.antt =====
-- When a table with a primary key finds a given row, and when it finds none.
use trash.Prelude.{
  ℕ, ◌≡◌, sym, ap, ◌∙◌, Bool, true, false, none, some, Option-cases, inl, inr, arith,
}
use trash.Runtime.{Table}

same_row {ℓ} : {A : Type ℓ} (r s : A) → some r ≡ some s → r ≡ s
same_row r s e = cc

module _ {Row : Type 0} {key : Row → ℕ} (table : Table Row key) where
  -- A row that is there and the only one to match is the one that is found.
  pub find-some :
      (p : Row → Bool) (t : table.Rows) (r : Row)
      → table.get (key r) t ≡ some r
      → p r ≡ true
      → ((s : Row) → table.get (key s) t ≡ some s → p s ≡ true → key s ≡ key r)
      → table.find p t ≡ some r
  find-some p t r there matches unique = elim (Option-cases (table.find p t)) [
    | inl missing ↦
        let misses = table.find-misses p t r (key r) missing there in
        absurd (ground (arith, matches, misses))
    | inr (s, found) ↦
        let stored = table.find-stored p t s found in
        let same = unique s stored (table.find-matches p t s found) in
        found ∙ sym stored ∙ ap (λ k. table.get k t) same ∙ there
  ]

  -- Where no row that is there matches, none is found.
  pub find-none :
      (p : Row → Bool) (t : table.Rows)
      → ((s : Row) → table.get (key s) t ≡ some s → p s ≡ false)
      → table.find p t ≡ none
  find-none p t misses = elim (Option-cases (table.find p t)) [
    | inl missing ↦ missing
    | inr (s, found) ↦
        let no = misses s (table.find-stored p t s found) in
        let yes = table.find-matches p t s found in absurd (ground (arith, no, yes))
  ]
