-- ===== src/Service/Conversation/Pages.antt =====
-- internal/service/conversation_service.go: the list of a user's conversations.
pub mod Walk
use nexo_im.Base.{
  last, ℕ, ◌+◌, ℤ, pos, pos_part, ◌+ℤ◌, leb_ℤ, ltb_ℤ, Text, ◌=ₜ◌, Bool, true, false, ◌&&◌, Option,
  none, some, List, [], ◌∷◌, map, find, upsert, take, length, ltb, if◌then◌else◌,
}
use mathlib.Core.Option
use nexo_im.Errors.{code, internal_server}
use nexo_im.Entity.Message.{Message, MessageInfo, to_message_info}
use nexo_im.Backend.{Backend}
use nexo_im.Backend.Monad.{Action, pure, ◌>>=◌, or_fail}
use nexo_im.Repository.Message.Batch.{ConvSeq, batch_get_by_conv_seq}
use nexo_im.Repository.Conversation.Page.{
  ConversationWithSeq, Cursor, cursor_of, get_user_conversations_with_seq,
  get_user_conversations_with_seq_page,
}
use nexo_im.Service.Conversation.{ConversationInfo}

abbrev pub default_conversation_list_limit : ℤ
default_conversation_list_limit = pos 20

abbrev pub max_conversation_list_limit : ℤ
max_conversation_list_limit = pos 100

unfoldable pub page_limit : ℤ → ℤ
page_limit limit =
    let positive = if leb_ℤ limit (pos 0) then default_conversation_list_limit else limit in
    if ltb_ℤ max_conversation_list_limit positive then max_conversation_list_limit else positive

-- The entries of a page: ConversationInfo with its last message.
pub record ListedConversation : Type 0 where
  pub info : ConversationInfo
  pub last_message : Option MessageInfo

pub record ConversationListResult : Type 0 where
  pub list : List ListedConversation
  pub has_more : Bool
  pub next_cursor : Option Cursor

-- `convMaxSeq`, for the conversations that have a message
unfoldable pub conv_max_seq : List ConversationWithSeq → List ConvSeq → List ConvSeq
conv_max_seq [] seqs = seqs
conv_max_seq (c ∷ cs) seqs = conv_max_seq cs (
    if ltb_ℤ (pos 0) c.max_seq
    then upsert (λ e. e.conversation_id =ₜ c.conversation.conversation_id)
        (λ e. record e { seq = c.max_seq })
        (record { conversation_id = c.conversation.conversation_id; seq = c.max_seq }) seqs
    else seqs)

unfoldable pub listed_conversation : List Message → ConversationWithSeq → ListedConversation
listed_conversation last_msgs c = record {
  info = record {
    conversation = c.conversation;
    unread_count = c.unread_count;
    max_seq = c.max_seq;
    read_seq = c.read_seq;
  };
  last_message =
      Option.map to_message_info
        (find (λ m. m.conversation_id =ₜ c.conversation.conversation_id) last_msgs);
}

-- What is shown of the rows, which are one more than the page where there are more, and the cursor.
pub record Shown : Type 0 where
  pub rows : List ConversationWithSeq
  pub has_more : Bool
  pub next_cursor : Option Cursor

abbrev row_cursor : ConversationWithSeq → Cursor
row_cursor c = cursor_of c.conversation

unfoldable pub show_page : ℤ → List ConversationWithSeq → Shown
show_page limit rows =
    if ltb (pos_part limit) (length rows)
    then (let shown = take (pos_part limit) rows in
        record { rows = shown; has_more = true; next_cursor = Option.map row_cursor (last shown) })
    else record { rows = rows; has_more = false; next_cursor = none }

module _ (b : Backend) where
  open b use {World}

  unfoldable pub last_messages : Bool → List ConversationWithSeq → Action World (List Message)
  last_messages with_last_message cs =
      if with_last_message
      then or_fail (batch_get_by_conv_seq b (conv_max_seq cs [])) (code internal_server)
      else pure []

  unfoldable pub build_conversation_infos :
      List ConversationWithSeq → Bool → Action World (List ListedConversation)
  build_conversation_infos cs with_last_message = do
    last_msgs ← last_messages with_last_message cs
    pure (map (listed_conversation last_msgs) cs)

  unfoldable pub get_all_user_conversations : Text → Bool → Action World (List ListedConversation)
  get_all_user_conversations user_id with_last_message = do
    cs ← or_fail (get_user_conversations_with_seq b user_id) (code internal_server)
    build_conversation_infos cs with_last_message

  unfoldable pub get_user_conversations_page :
      Text → Bool → ℤ → Cursor → Action World ConversationListResult
  get_user_conversations_page user_id with_last_message limit k = do
    rows ←
        or_fail (get_user_conversations_with_seq_page b user_id (page_limit limit +ℤ pos 1) k)
          (code internal_server)
    let shown = show_page (page_limit limit) rows
    list ← build_conversation_infos shown.rows with_last_message
    pure (record { list = list; has_more = shown.has_more; next_cursor = shown.next_cursor })
