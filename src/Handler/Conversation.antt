-- ===== src/Handler/Conversation.antt =====
-- internal/handler/conversation_handler.go
use nexo_im.Base.{
  ℤ, pos, ◌-ℤ◌, eqb_ℤ, ltb_ℤ, leb_ℤ, Text, is_empty, not, Bool, false, ◌&&◌, ◌||◌, Option, none,
  some, List, if◌then◌else◌,
}
use nexo_im.Errors.{unauthorized, invalid_param}
use nexo_im.Backend.{Backend}
use nexo_im.Backend.Monad.{pure, ◌>>=◌}
use nexo_im.Repository.Conversation.{Updates}
use nexo_im.Service.Conversation
use nexo_im.Service.Conversation.{ConversationInfo, at_least_zero, get_max_read_seq}
use nexo_im.Service.Conversation.Pages.{
  ListedConversation, ConversationListResult, get_all_user_conversations,
  get_user_conversations_page, max_conversation_list_limit,
}
use nexo_im.Handler.Message.{Handler, answers, rejects, query_number}

pub record ConversationListRequest : Type 0 where
  pub with_last_message : Option Bool
  pub limit : ℤ
  pub cursor_updated_at : ℤ
  pub cursor_conversation_id : Text

pub record MaxReadSeq : Type 0 where
  pub max_seq : ℤ
  pub read_seq : ℤ
  pub unread_count : ℤ

pub record MarkReadRequest : Type 0 where
  pub conversation_id : Text
  pub read_seq : ℤ

abbrev or_false : Option Bool → Bool
or_false none = false
or_false (some x) = x

-- A cursor has both parts or none, and the limit is at most that of the service.
unfoldable pub is_bad_list_request : ConversationListRequest → Bool
is_bad_list_request req =
    ltb_ℤ req.limit (pos 0)
    || ltb_ℤ max_conversation_list_limit req.limit
    || ltb_ℤ (pos 0) req.cursor_updated_at && is_empty req.cursor_conversation_id
    || not (is_empty req.cursor_conversation_id) && leb_ℤ req.cursor_updated_at (pos 0)

module _ (b : Backend) where
  open b use {World}

  -- The bound request of GetAllConversationList is its one option.
  abbrev lists_all : Text → Option (Option Bool) → Handler World (List ListedConversation)
  lists_all user_id none = rejects invalid_param
  lists_all user_id (some with_last_message) =
      answers (get_all_user_conversations b user_id (or_false with_last_message))

  unfoldable pub get_all_conversation_list :
      Text → Option (Option Bool) → Handler World (List ListedConversation)
  get_all_conversation_list user_id body =
      if is_empty user_id then rejects unauthorized else lists_all user_id body

  abbrev lists_page : Text → Option ConversationListRequest → Handler World ConversationListResult
  lists_page user_id none = rejects invalid_param
  lists_page user_id (some req) =
      if is_bad_list_request req
      then rejects invalid_param
      else answers (
          get_user_conversations_page b user_id (or_false req.with_last_message) req.limit (record {
            updated_at = req.cursor_updated_at;
            conversation_id = req.cursor_conversation_id;
          }))

  unfoldable pub get_conversation_list :
      Text → Option ConversationListRequest → Handler World ConversationListResult
  get_conversation_list user_id body =
      if is_empty user_id then rejects unauthorized else lists_page user_id body

  unfoldable pub get_conversation : Text → Text → Handler World ConversationInfo
  get_conversation user_id conversation_id =
      if is_empty user_id
      then rejects unauthorized
      else if is_empty conversation_id
      then rejects invalid_param
      else answers (Conversation.get_conversation b user_id conversation_id)

  abbrev updates : Text → Text → Option Updates → Handler World (Unit {0})
  updates user_id conversation_id none = rejects invalid_param
  updates user_id conversation_id (some req) =
      answers (Conversation.update_conversation b user_id conversation_id req)

  unfoldable pub update_conversation : Text → Text → Option Updates → Handler World (Unit {0})
  update_conversation user_id conversation_id body =
      if is_empty user_id
      then rejects unauthorized
      else if is_empty conversation_id
      then rejects invalid_param
      else updates user_id conversation_id body

  abbrev marks : Text → Option MarkReadRequest → Handler World (Unit {0})
  marks user_id none = rejects invalid_param
  marks user_id (some req) =
      answers (Conversation.mark_read b user_id req.conversation_id req.read_seq)

  unfoldable pub mark_read : Text → Option MarkReadRequest → Handler World (Unit {0})
  mark_read user_id body = if is_empty user_id then rejects unauthorized else marks user_id body

  unfoldable pub get_max_and_read_seq : Text → Text → Handler World MaxReadSeq
  get_max_and_read_seq user_id conversation_id =
      if is_empty user_id
      then rejects unauthorized
      else if is_empty conversation_id
      then rejects invalid_param
      else answers (do
        (max_seq, read_seq) ← get_max_read_seq b user_id conversation_id
        pure (record {
          max_seq = max_seq;
          read_seq = read_seq;
          unread_count = at_least_zero (max_seq -ℤ read_seq);
        }))

  -- The user's own number where the query has none, or 0.
  unfoldable pub get_unread_count : Text → Text → Text → Handler World ℤ
  get_unread_count user_id conversation_id read_seq_str =
      if is_empty user_id
      then rejects unauthorized
      else if is_empty conversation_id
      then rejects invalid_param
      else answers (do
        (max_seq, current) ← get_max_read_seq b user_id conversation_id
        let asked = query_number read_seq_str
        pure (at_least_zero (max_seq -ℤ (if eqb_ℤ asked (pos 0) then current else asked))))
