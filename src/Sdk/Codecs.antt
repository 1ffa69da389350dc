-- ===== src/Sdk/Codecs.antt =====
-- encoding/json at the types of sdk/types.go that are sent and read; `none` is an error.
use nexo_im.Base.{Text, Option, List}
use nexo_im.Sdk.Types.{
  RegisterRequest, LoginRequest, UpdateUserRequest, GetUsersInfoRequest,
  GetUsersOnlineStatusRequest, CreateGroupRequest, JoinGroupRequest, QuitGroupRequest,
  SendMessageRequest, GetConversationListRequest, UpdateConversationRequest, MarkReadRequest,
  ConversationInfo, ConversationListPage, GroupInfo, GroupMember, LoginResponse, MaxReadSeqResponse,
  MaxSeqResponse, MessageInfo, OnlineStatus, PullMessagesResponse, UnreadCountResponse, UserInfo,
}

pub record Codecs : Type 0 where
  pub encode_register : RegisterRequest → Option Text
  pub encode_login : LoginRequest → Option Text
  pub encode_update_user : UpdateUserRequest → Option Text
  pub encode_users_info : GetUsersInfoRequest → Option Text
  pub encode_users_online_status : GetUsersOnlineStatusRequest → Option Text
  pub encode_create_group : CreateGroupRequest → Option Text
  pub encode_join_group : JoinGroupRequest → Option Text
  pub encode_quit_group : QuitGroupRequest → Option Text
  pub encode_send_message : SendMessageRequest → Option Text
  pub encode_conversation_list : GetConversationListRequest → Option Text
  pub encode_update_conversation : UpdateConversationRequest → Option Text
  pub encode_mark_read : MarkReadRequest → Option Text
  pub decode_user : Text → Option UserInfo
  pub decode_users : Text → Option (List UserInfo)
  pub decode_online_statuses : Text → Option (List OnlineStatus)
  pub decode_login : Text → Option LoginResponse
  pub decode_group : Text → Option GroupInfo
  pub decode_members : Text → Option (List GroupMember)
  pub decode_message : Text → Option MessageInfo
  pub decode_messages : Text → Option PullMessagesResponse
  pub decode_max_seq : Text → Option MaxSeqResponse
  pub decode_conversations : Text → Option (List ConversationInfo)
  pub decode_page : Text → Option ConversationListPage
  pub decode_conversation : Text → Option ConversationInfo
  pub decode_max_read_seq : Text → Option MaxReadSeqResponse
  pub decode_unread_count : Text → Option UnreadCountResponse
