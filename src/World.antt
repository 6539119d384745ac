-- ===== src/World.antt =====
-- The state that a request works on, and the actions on it. A request is a sequence of actions;
-- each call of the database, the cache or the broker takes the next entry of `faults`, and fails
-- if it is `true`. What was written before a failure stays written.
use trash.Prelude.{ℕ, Bool, Option, List, [], ◌∷◌, Text}
use trash.Entity.{UserRow, OperationRow}
use trash.Exceptions.{Exception}
use trash.Runtime.{Runtime}

pub data EmailTemplates : Type 0 where
  simple with_button : EmailTemplates

-- `ISendMessage`, a message for a queue; `body`, `url` and `button` are its `payload`.
pub record SendMessage : Type 0 where
  pub to : Text
  pub subject : Text
  pub body : Text
  pub url : Text
  pub button : Text
  pub template : EmailTemplates

-- The channel of `BrokerClient`: none yet, one of the open connection, or one of a closed one.
pub data Channel : Type 0 where
  missing ready stale : Channel

pub record Broker : Type 0 where
  pub connected : Bool
  pub channel : Channel
  pub queues : List Text
  pub sent : List (Text × SendMessage)

-- The statements that write.
pub data Write : Type 0 where
  put_user : UserRow → Write
  put_operation : OperationRow → Write
  delete_operation : ℕ → Write

pub data Result {ℓ} (A : Type ℓ) : Type ℓ where
  ok : A → Result A
  err : Exception → Result A

module _ ⦃rt : Runtime⦄ where
  pub record Db : Type 0 where
    pub users : rt.users.Rows
    pub operations : rt.operations.Rows

  abbrev pub apply_write : Write → Db → Db
  apply_write (put_user r) db = record db { users = rt.users.put r db.users }
  apply_write (put_operation r) db = record db { operations = rt.operations.put r db.operations }
  apply_write (delete_operation k) db = record db {
    operations = rt.operations.delete k db.operations;
  }

  abbrev pub apply_writes : List Write → Db → Db
  apply_writes [] db = db
  apply_writes (w ∷ ws) db = apply_writes ws (apply_write w db)

  -- `committed` is what other connections see; `pending` are the writes of the open transaction.
  pub record World : Type 0 where
    pub committed : Db
    pub pending : Option (List Write)
    pub user_seq : ℕ
    pub operation_seq : ℕ
    pub cache : rt.cache.Entries
    pub broker : Broker
    pub now : ℕ
    pub entropy : ℕ
    pub faults : List Bool

  abbrev pub Action {ℓ} : Type ℓ → Type ℓ
  Action A = World → Result A × World
