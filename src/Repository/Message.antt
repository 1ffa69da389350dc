-- ===== src/Repository/Message.antt =====
-- internal/repository/message_repo.go
pub mod Pull
pub mod Whole
pub mod Batch
use nexo_im.Base.{
  ℕ, ℤ, pos, pos_part, leb_ℤ, ltb_ℤ, eqb_ℤ, Text, ◌=ₜ◌, Bool, not, ◌&&◌, ◌||◌, Option, none, some,
  is_some, List, [], ◌∷◌, ◌++◌, if◌then◌else◌, find, select, take,
}
use nexo_im.Errors.{Failure, no_record, refused, Result, ok, err}
use nexo_im.Entity.Message.{Message}
use nexo_im.Backend.{Db, Sql, Backend}
use nexo_im.Backend.Monad.{Action, pure, fail, ◌>>=◌, ◌>>◌, attempt, gets}
use nexo_im.Repository.Statement.{found}

-- WHERE conversation_id = ? AND seq = ?
abbrev pub at_seq : Text → ℤ → Message → Bool
at_seq c n m = m.conversation_id =ₜ c && eqb_ℤ m.seq n

-- WHERE sender_id = ? AND client_msg_id = ?
abbrev pub from_client : Text → Text → Message → Bool
from_client s k m = m.sender_id =ₜ s && m.client_msg_id =ₜ k

-- WHERE conversation_id = ? AND seq >= ? AND seq <= ?
abbrev pub in_range : Text → ℤ → ℤ → Message → Bool
in_range c lo hi m = m.conversation_id =ₜ c && (leb_ℤ lo m.seq && leb_ℤ m.seq hi)

-- INSERT of a message that the table takes or not; the table has the unique keys (conversation_id, seq) and (sender_id, client_msg_id).
unfoldable pub insert_message : Bool → Message → Sql (Unit {0})
insert_message fits m d =
    if not fits
      || is_some (find (at_seq m.conversation_id m.seq) d.messages)
      || is_some (find (from_client m.sender_id m.client_msg_id) d.messages)
    then (err refused, d)
    else (ok tt, record d { messages = d.messages ++ m ∷ [] })

-- ORDER BY seq ASC
unfoldable pub insert_by_seq : Message → List Message → List Message
insert_by_seq m [] = m ∷ []
insert_by_seq m (x ∷ xs) = if leb_ℤ m.seq x.seq then m ∷ (x ∷ xs) else x ∷ insert_by_seq m xs

unfoldable pub order_by_seq : List Message → List Message
unfolding insert_by_seq
order_by_seq [] = []
order_by_seq (x ∷ xs) = insert_by_seq x (order_by_seq xs)

-- `if limit <= 0 || limit > 100 { limit = 100 }`
abbrev pub capped : ℤ → ℤ
capped limit = if leb_ℤ limit (pos 0) || ltb_ℤ (pos 100) limit then pos 100 else limit

unfoldable pub select_range : Text → ℤ → ℤ → ℤ → Sql (List Message)
select_range c lo hi limit d =
    (ok (take (pos_part limit) (order_by_seq (select (in_range c lo hi) d.messages))), d)

unfoldable pub first_from_client : Text → Text → Sql Message
first_from_client s k d = (found (find (from_client s k) d.messages), d)

unfoldable pub first_at_seq : Text → ℤ → Sql Message
first_at_seq c n d = (found (find (at_seq c n) d.messages), d)

module _ (b : Backend) where
  open b use {World, exec, clock, next_id, fits}

  -- gorm fills the primary key and the times into the message.
  unfoldable pub create : Message → Action World Message
  create msg = do
    id ← gets next_id
    now ← gets clock
    let created = record msg { id = id; created_at = now; updated_at = now }
    exec Unit (insert_message (fits created) created)
    pure created

  abbrev optional : Result Message → Action World (Option Message)
  optional (ok m) = pure (some m)
  optional (err no_record) = pure none
  optional (err f) = fail f

  unfoldable pub get_by_client_msg_id : Text → Text → Action World (Option Message)
  get_by_client_msg_id sender_id client_msg_id = do
    m ← attempt (exec Message (first_from_client sender_id client_msg_id))
    optional m

  unfoldable pub get_by_conv_seq : Text → ℤ → Action World Message
  get_by_conv_seq conversation_id seq = exec Message (first_at_seq conversation_id seq)

  unfoldable pub pull_messages : Text → ℤ → ℤ → ℤ → Action World (List Message)
  pull_messages conversation_id begin_seq end_seq limit =
      exec (List Message) (select_range conversation_id begin_seq end_seq (capped limit))
