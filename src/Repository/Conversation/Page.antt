-- ===== src/Repository/Conversation/Page.antt =====
-- internal/repository/conversation_repo.go: the list of a user's conversations, by pages. Texts are
-- compared by their bytes.
pub mod Order
use nexo_im.Base.{
  ℤ, pos, pos_part, ◌-ℤ◌, ltb_ℤ, leb_ℤ, eqb_ℤ, Text, ◌=ₜ◌, ◌<ₜ◌, Bool, true, ◌&&◌, ◌||◌, Option,
  none, some, List, [], ◌∷◌, map, find, select, take, if◌then◌else◌,
}
use nexo_im.Errors.{Result, ok}
use nexo_im.Entity.Conversation.{Conversation}
use nexo_im.Entity.Seq.{SeqConversation, SeqUser}
use nexo_im.Backend.{Db, Sql, Backend}
use nexo_im.Backend.Monad.{Action}
use nexo_im.Repository.Seq.{of_conversation, of_user}

-- internal/entity/conversation.go
pub record ConversationWithSeq : Type 0 where
  pub conversation : Conversation
  pub max_seq : ℤ
  pub read_seq : ℤ
  pub unread_count : ℤ

-- A cursor: `cursorUpdatedAt` and `cursorConversationId`.
pub record Cursor : Type 0 where
  pub updated_at : ℤ
  pub conversation_id : Text

abbrev pub no_cursor : Cursor
no_cursor = record { updated_at = pos 0; conversation_id = [] }

abbrev pub cursor_of : Conversation → Cursor
cursor_of c = record { updated_at = c.updated_at; conversation_id = c.conversation_id }

-- (updated_at < ?) OR (updated_at = ? AND conversation_id < ?)
unfoldable pub comes_after : Conversation → Cursor → Bool
comes_after c k =
    ltb_ℤ c.updated_at k.updated_at
    || eqb_ℤ c.updated_at k.updated_at && c.conversation_id <ₜ k.conversation_id

-- ORDER BY updated_at DESC, conversation_id DESC
unfoldable pub insert_ordered : Conversation → List Conversation → List Conversation
insert_ordered c [] = c ∷ []
insert_ordered c (x ∷ xs) =
    if comes_after x (cursor_of c) then c ∷ (x ∷ xs) else x ∷ insert_ordered c xs

unfoldable pub newest_first : List Conversation → List Conversation
unfolding insert_ordered
newest_first [] = []
newest_first (c ∷ cs) = insert_ordered c (newest_first cs)

abbrev max_or_zero : Option SeqConversation → ℤ
max_or_zero none = pos 0
max_or_zero (some s) = s.max_seq

abbrev read_or_zero : Option SeqUser → ℤ
read_or_zero none = pos 0
read_or_zero (some s) = s.read_seq

-- GREATEST(0, max_seq - read_seq)
abbrev greatest_zero : ℤ → ℤ
greatest_zero n = if ltb_ℤ n (pos 0) then pos 0 else n

-- The two LEFT JOINs.
unfoldable pub with_seq : Db → Conversation → ConversationWithSeq
with_seq d c =
    let max_seq = max_or_zero (find (of_conversation c.conversation_id) d.seq_conversations) in
    let read_seq = read_or_zero (find (of_user c.owner_id c.conversation_id) d.seq_users) in
    record {
      conversation = c;
      max_seq = max_seq;
      read_seq = read_seq;
      unread_count = greatest_zero (max_seq -ℤ read_seq);
    }

-- WHERE owner_id = ?, in order
unfoldable pub user_conversations : Text → Db → List Conversation
user_conversations owner_id d = newest_first (select (λ c. c.owner_id =ₜ owner_id) d.conversations)

abbrev pub after_cursor : Cursor → List Conversation → List Conversation
after_cursor k cs = if ltb_ℤ (pos 0) k.updated_at then select (λ c. comes_after c k) cs else cs

abbrev pub limited : ℤ → List Conversation → List Conversation
limited limit cs = if ltb_ℤ (pos 0) limit then take (pos_part limit) cs else cs

unfoldable pub conversations_page : Text → ℤ → Cursor → Db → List ConversationWithSeq
conversations_page owner_id limit k d =
    map (with_seq d) (limited limit (after_cursor k (user_conversations owner_id d)))

module _ (b : Backend) where
  open b use {World, exec}

  unfoldable pub get_user_conversations_with_seq_page :
      Text → ℤ → Cursor → Action World (List ConversationWithSeq)
  get_user_conversations_with_seq_page owner_id limit k =
      exec (List ConversationWithSeq) (λ d. (ok (conversations_page owner_id limit k d), d))

  unfoldable pub get_user_conversations_with_seq : Text → Action World (List ConversationWithSeq)
  get_user_conversations_with_seq owner_id =
      get_user_conversations_with_seq_page owner_id (pos 0) no_cursor

  unfoldable pub get_user_conversations : Text → Action World (List Conversation)
  get_user_conversations owner_id =
      exec (List Conversation) (λ d. (ok (user_conversations owner_id d), d))
