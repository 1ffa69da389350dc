-- ===== src/Sdk/Conversation.antt =====
-- sdk/conversation.go
use mathlib.Core.Option
use nexo_im.Base.{
  ℤ, pos, ltb_ℤ, Text, codes, Bool, false, Option, none, some, List, [], ◌∷◌, ◌++◌, if◌then◌else◌,
}
use nexo_im.Sdk.Endpoints
use nexo_im.Sdk.Endpoints.{method_of, path_of}
use nexo_im.Sdk.Client.{Client, Context, RequestOption}
use nexo_im.Sdk.Client.Answers.{
  Platform, Call, Answer, answer, failed, unread, read_over, call, request, get,
}
use nexo_im.Sdk.Message.{positive_param}
use nexo_im.Sdk.Types.{
  ConversationInfo, ConversationListCursor, ConversationListPage, GetConversationListRequest,
  MaxReadSeqResponse, UnreadCountResponse, UpdateConversationRequest, no_list_request, no_update,
  zero_conversation, zero_conversation_list_page, zero_max_read_seq, zero_unread_count,
}

-- What the page of conversations is asked for.
unfoldable pub list_request : Bool → ℤ → Option ConversationListCursor → GetConversationListRequest
list_request with_last_message limit cursor = record {
  with_last_message = some with_last_message;
  limit = if ltb_ℤ (pos 0) limit then some limit else none;
  cursor_updated_at = Option.map (λ (k : ConversationListCursor). k.updated_at) cursor;
  cursor_conversation_id = Option.map (λ (k : ConversationListCursor). k.conversation_id) cursor;
}

module _ (p : Platform) (c : Client) (ctx : Context) where
  open p use {World}

  unfoldable pub get_all_conversation_list_with_last_message : Bool → Call p (List ConversationInfo)
  get_all_conversation_list_with_last_message with_last_message =
      call p c ctx Endpoints.all_conversations
        (p.json.encode_conversation_list
          (record no_list_request { with_last_message = some with_last_message }))
        (read_over [] p.json.decode_conversations) []

  unfoldable pub get_all_conversation_list : Call p (List ConversationInfo)
  get_all_conversation_list = get_all_conversation_list_with_last_message false

  unfoldable pub get_conversation_list_with_last_message :
      Bool → ℤ → Option ConversationListCursor → Call p ConversationListPage
  get_conversation_list_with_last_message with_last_message limit cursor =
      call p c ctx Endpoints.conversation_list
        (p.json.encode_conversation_list (list_request with_last_message limit cursor))
        (read_over zero_conversation_list_page p.json.decode_page) []

  unfoldable pub get_conversation_list :
      ℤ → Option ConversationListCursor → Call p ConversationListPage
  get_conversation_list = get_conversation_list_with_last_message false

  module _ (opts : List (Option RequestOption)) where
    unfoldable pub internal_get_all_conversation_list_with_last_message :
        Bool → Call p (List ConversationInfo)
    internal_get_all_conversation_list_with_last_message with_last_message =
        call p c ctx Endpoints.internal_all_conversations
          (p.json.encode_conversation_list
            (record no_list_request { with_last_message = some with_last_message }))
          (read_over [] p.json.decode_conversations) opts

    unfoldable pub internal_get_all_conversation_list : Call p (List ConversationInfo)
    internal_get_all_conversation_list = internal_get_all_conversation_list_with_last_message false

    unfoldable pub internal_get_conversation_list_with_last_message :
        Bool → ℤ → Option ConversationListCursor → Call p ConversationListPage
    internal_get_conversation_list_with_last_message with_last_message limit cursor =
        call p c ctx Endpoints.internal_conversation_list
          (p.json.encode_conversation_list (list_request with_last_message limit cursor))
          (read_over zero_conversation_list_page p.json.decode_page) opts

    unfoldable pub internal_get_conversation_list :
        ℤ → Option ConversationListCursor → Call p ConversationListPage
    internal_get_conversation_list = internal_get_conversation_list_with_last_message false

  unfoldable pub get_conversation : Text → Call p ConversationInfo
  get_conversation conversation_id =
      get p c ctx (path_of Endpoints.conversation_info)
        ((codes "conversation_id", conversation_id) ∷ [])
        (read_over zero_conversation p.json.decode_conversation) []

  -- The conversation stands in the path as it is, and the signature is over the path with it.
  unfoldable pub update_conversation : Text → UpdateConversationRequest → Call p (Unit {0})
  update_conversation conversation_id req =
      request p c ctx (method_of Endpoints.update_conversation)
        (path_of Endpoints.update_conversation ++ (codes "?conversation_id=" ++ conversation_id))
        (p.json.encode_update_conversation req) (unread tt) []

  unfoldable pub set_conversation_pinned : Text → Bool → Call p (Unit {0})
  set_conversation_pinned conversation_id is_pinned =
      update_conversation conversation_id (record no_update { is_pinned = some is_pinned })

  unfoldable pub set_conversation_recv_msg_opt : Text → ℤ → Call p (Unit {0})
  set_conversation_recv_msg_opt conversation_id recv_msg_opt =
      update_conversation conversation_id (record no_update { recv_msg_opt = some recv_msg_opt })

  unfoldable pub mark_read : Text → ℤ → Call p (Unit {0})
  mark_read conversation_id read_seq =
      call p c ctx Endpoints.mark_read
        (p.json.encode_mark_read
          (record { conversation_id = conversation_id; read_seq = read_seq }))
        (unread tt) []

  unfoldable pub get_max_read_seq : Text → Call p MaxReadSeqResponse
  get_max_read_seq conversation_id =
      get p c ctx (path_of Endpoints.max_read_seq) ((codes "conversation_id", conversation_id) ∷ [])
        (read_over zero_max_read_seq p.json.decode_max_read_seq) []

  abbrev unread_count_of : Answer UnreadCountResponse × World → Answer ℤ × World
  unread_count_of (answer result, s) = (answer result.unread_count, s)
  unread_count_of (failed e, s) = (failed e, s)

  unfoldable pub get_unread_count : Text → ℤ → Call p ℤ
  get_unread_count conversation_id read_seq s = unread_count_of (
      get p c ctx (path_of Endpoints.unread_count)
        ((codes "conversation_id", conversation_id) ∷ positive_param (codes "read_seq") read_seq)
        (read_over zero_unread_count p.json.decode_unread_count) [] s)
