-- ===== src/Backend.antt =====
-- What a running server stands on and does not implement: MySQL behind gorm, Redis behind
-- go-redis, and the clock. The program's queries (internal/repository) are translated to functions
-- on the tables; `exec`, `command` and `transaction`, which run them, are parameters with laws that
-- state what is documented of them. MySQL's default collation takes texts for equal that differ in
-- case or accents; here texts are equal byte by byte, so that the model is of data in which the two
-- agree. A service call has the tables for itself: what other calls do
-- between its statements is not modelled.
pub mod Monad
pub mod Leaves
pub mod Memory
use nexo_im.Base.{Bool, ℤ, Text, Option, List, ◌≡◌, ◌⊎◌}
use nexo_im.Errors.{Failure, refused, Result, ok, err}
use nexo_im.Entity.User.{User}
use nexo_im.Entity.Group.{Group}
use nexo_im.Entity.GroupMember.{GroupMember}
use nexo_im.Entity.Conversation.{Conversation}
use nexo_im.Entity.Seq.{SeqConversation, SeqUser}
use nexo_im.Entity.Message.{Message}

-- The tables of migrations/001_init_schema.sql.
pub record Db : Type 0 where
  pub users : List User
  pub groups : List Group
  pub members : List GroupMember
  pub conversations : List Conversation
  pub seq_conversations : List SeqConversation
  pub seq_users : List SeqUser
  pub messages : List Message

-- The numbers that Redis holds, by key.
abbrev pub Cache : Type 0
Cache = Text → Option ℤ

-- One statement: what it answers, and the tables after it.
abbrev pub Sql : Type 0 → Type 0
Sql A = Db → Result A × Db

abbrev pub RedisCommand : Type 0 → Type 0
RedisCommand A = Cache → Result A × Cache

pub record Backend : Type 1 where
  pub World : Type 0
  pub db : World → Db
  pub cache : World → Cache
  -- the global `redisKeyPrefix` of pkg/constant/constant.go
  pub key_prefix : Text
  -- time.Now().UnixMilli()
  pub clock : World → ℤ
  -- the value that AUTO_INCREMENT gives to the next message
  pub next_id : World → ℤ
  -- Whether gorm and MySQL take a message: its content and extra are encoded as JSON, and its texts fit
  -- their columns.
  pub fits : Message → Bool
  pub exec : (A : Type 0) → Sql A → World → Result A × World
  pub command : (A : Type 0) → RedisCommand A → World → Result A × World
  pub transaction : (A : Type 0) → (World → Result A × World) → World → Result A × World
  -- A statement runs as a whole, or fails for a reason outside the tables and changes nothing.
  pub exec_lem :
      (A : Type 0) (q : Sql A) (w : World)
      → ((((exec A q w).0 ≡ (q (db w)).0) × (db (exec A q w).1 ≡ (q (db w)).1))
          ⊎ (((exec A q w).0 ≡ err refused) × (db (exec A q w).1 ≡ db w)))
        × (cache (exec A q w).1 ≡ cache w)
  -- So does a command of Redis.
  pub command_lem :
      (A : Type 0) (q : RedisCommand A) (w : World)
      → ((((command A q w).0 ≡ (q (cache w)).0) × (cache (command A q w).1 ≡ (q (cache w)).1))
          ⊎ (((command A q w).0 ≡ err refused) × (cache (command A q w).1 ≡ cache w)))
        × (db (command A q w).1 ≡ db w)
  -- A transaction commits what its function did and answers as the function did, or it fails, with
  -- the function's error or its own, and the tables are as they were.
  pub transaction_lem :
      (A : Type 0) (m : World → Result A × World) (w : World)
      → ((a : A) × ((m w).0 ≡ ok a)
          × ((transaction A m w).0 ≡ ok a)
          × (db (transaction A m w).1 ≡ db (m w).1))
        ⊎ ((f : Failure) × ((transaction A m w).0 ≡ err f)
            × (((m w).0 ≡ err f) ⊎ (f ≡ refused))
            × (db (transaction A m w).1 ≡ db w))
