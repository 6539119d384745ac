-- ===== src/Database/Laws.antt =====
-- The two outcomes of a look-up of a user by the default connection.
use mathlib.Core.Option
use trash.Prelude.{◌≡◌, refl, ◌⊎◌, inl, inr, Bool, true, false, Option, List, [], ◌∷◌, arith}
use trash.Entity.{UserRow, User, Select, load_user}
use trash.Exceptions.{call_failed}
use trash.Runtime.{Runtime}
use trash.World.{ok, err, World}
use trash.Database.{absent, find_user}

module _ ⦃rt : Runtime⦄ (test : UserRow → Bool) (columns : Select) (w : World) where
  abbrev pub looked_up : Option User
  looked_up = Option.map (load_user columns) (rt.users.find test w.committed.users)

  abbrev FindOutcome : Type 0
  FindOutcome =
      ((gs : List Bool) × (find_user absent test columns w
          ≡ (err call_failed, record w { faults = gs })))
      ⊎ ((gs : List Bool) × (find_user absent test columns w
            ≡ (ok looked_up, record w { faults = gs })))

  outcome_by : (fs : List Bool) → w.faults ≡ fs → FindOutcome
  unfolding find_user
  outcome_by [] e = inr ([], ground arith)
  outcome_by (true ∷ fs) e = inl (fs, ground arith)
  outcome_by (false ∷ fs) e = inr (fs, ground arith)

  -- The call fails, or finds what is committed; only the list of failures moves on.
  pub find_user-cases : FindOutcome
  find_user-cases = outcome_by w.faults refl

  pub find_user-runs : w.faults ≡ [] → find_user absent test columns w ≡ (ok looked_up, w)
  unfolding find_user
  find_user-runs h = rw h
