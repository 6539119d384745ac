-- ===== src/Invariant.antt =====
-- What holds of the database of the service between two requests, the code of apps/auth/src/app
-- taken together.
pub mod Tables
pub mod Requests
pub mod Reach
use trash.Prelude.{ℕ, ◌≡◌, none, some}
use trash.Entity.{UserRow}
use trash.Runtime.{Runtime}
use trash.World.{Db, World}
use trash.Operations.OneEach.{OneEach}

module _ ⦃rt : Runtime⦄ where
  abbrev pub StoredUser : UserRow → rt.users.Rows → Type 0
  StoredUser r t = rt.users.get r.id t ≡ some r

  -- Every address is in small letters, and no two users have the same one.
  pub record DistinctUsers (t : rt.users.Rows) : Type 0 where
    pub lowered : (r : UserRow) → StoredUser r t → rt.lower r.email ≡ r.email
    pub unique : (r s : UserRow) → StoredUser r t → StoredUser s t → r.email ≡ s.email → r.id ≡ s.id

  pub record Consistent (db : Db) : Type 0 where
    pub users : DistinctUsers db.users
    pub operations : OneEach db

  -- The database is consistent and no transaction is open.
  pub record Idle (w : World) : Type 0 where
    pub consistent : Consistent w.committed
    pub closed : w.pending ≡ none
