-- ===== src/Sdk/Types.antt =====
-- sdk/types.go. A pointer is an `Option`, the integer types are ℤ.
use nexo_im.Base.{ℤ, pos, Text, Bool, false, Option, none, List, []}

-- `Value` is what encoding/json makes of data whose type is not known.
pub record Response (Value : Type 0) : Type 0 where
  pub code : ℤ
  pub message : Text
  pub content : Option Value

unfoldable pub error_message : {Value : Type 0} → Response Value → Text
error_message r = r.message

pub record UserInfo : Type 0 where
  pub id : Text
  pub nickname : Text
  pub avatar : Text
  pub extra : Option Text
  pub created_at : ℤ

pub record MessageContent : Type 0 where
  pub text : Text
  pub image : Text
  pub video : Text
  pub audio : Text
  pub file : Text
  pub custom : Text

pub record MessageInfo : Type 0 where
  pub id : ℤ
  pub conversation_id : Text
  pub seq : ℤ
  pub client_msg_id : Text
  pub sender_id : Text
  pub session_type : ℤ
  pub msg_type : ℤ
  pub content : MessageContent
  pub send_at : ℤ

pub record ConversationInfo : Type 0 where
  pub conversation_id : Text
  pub conversation_type : ℤ
  pub peer_user_id : Text
  pub group_id : Text
  pub recv_msg_opt : ℤ
  pub is_pinned : Bool
  pub unread_count : ℤ
  pub max_seq : ℤ
  pub read_seq : ℤ
  pub updated_at : ℤ
  pub last_message : Option MessageInfo

pub record GroupInfo : Type 0 where
  pub id : Text
  pub name : Text
  pub introduction : Text
  pub avatar : Text
  pub status : ℤ
  pub creator_user_id : Text
  pub member_count : ℤ
  pub created_at : ℤ

pub record GroupMember : Type 0 where
  pub id : ℤ
  pub group_id : Text
  pub user_id : Text
  pub group_nickname : Text
  pub group_avatar : Text
  pub extra : Option Text
  pub role_level : ℤ
  pub status : ℤ
  pub joined_at : ℤ
  pub join_seq : ℤ
  pub inviter_user_id : Text
  pub created_at : ℤ
  pub updated_at : ℤ

pub record OnlineStatus : Type 0 where
  pub user_id : Text
  pub status : ℤ
  pub platform : Text

pub record RegisterRequest : Type 0 where
  pub user_id : Text
  pub nickname : Text
  pub password : Text
  pub avatar : Text

pub record LoginRequest : Type 0 where
  pub user_id : Text
  pub password : Text
  pub platform_id : ℤ

pub record LoginResponse : Type 0 where
  pub token : Text
  pub user_info : Option UserInfo

pub record UpdateUserRequest : Type 0 where
  pub nickname : Text
  pub avatar : Text
  pub extra : Text

pub record GetUsersInfoRequest : Type 0 where
  pub user_ids : List Text

pub record GetUsersOnlineStatusRequest : Type 0 where
  pub user_ids : List Text

pub record CreateGroupRequest : Type 0 where
  pub name : Text
  pub introduction : Text
  pub avatar : Text
  pub member_ids : List Text

pub record JoinGroupRequest : Type 0 where
  pub group_id : Text
  pub inviter_id : Text

pub record QuitGroupRequest : Type 0 where
  pub group_id : Text

pub record SendMessageRequest : Type 0 where
  pub client_msg_id : Text
  pub recv_id : Text
  pub group_id : Text
  pub session_type : ℤ
  pub msg_type : ℤ
  pub content : MessageContent

pub record PullMessagesRequest : Type 0 where
  pub conversation_id : Text
  pub begin_seq : ℤ
  pub end_seq : ℤ
  pub limit : ℤ

pub record PullMessagesResponse : Type 0 where
  pub messages : List MessageInfo
  pub max_seq : ℤ

pub record UpdateConversationRequest : Type 0 where
  pub recv_msg_opt : Option ℤ
  pub is_pinned : Option Bool

pub record GetConversationListRequest : Type 0 where
  pub with_last_message : Option Bool
  pub limit : Option ℤ
  pub cursor_updated_at : Option ℤ
  pub cursor_conversation_id : Option Text

pub record ConversationListCursor : Type 0 where
  pub updated_at : ℤ
  pub conversation_id : Text

pub record ConversationListPage : Type 0 where
  pub list : List ConversationInfo
  pub has_more : Bool
  pub next_cursor : Option ConversationListCursor

pub record MarkReadRequest : Type 0 where
  pub conversation_id : Text
  pub read_seq : ℤ

pub record MaxReadSeqResponse : Type 0 where
  pub max_seq : ℤ
  pub read_seq : ℤ
  pub unread_count : ℤ

pub record MaxSeqResponse : Type 0 where
  pub max_seq : ℤ

pub record UnreadCountResponse : Type 0 where
  pub unread_count : ℤ

-- The zero values in which results are read.
abbrev pub zero_user : UserInfo
zero_user = record { id = []; nickname = []; avatar = []; extra = none; created_at = pos 0 }

abbrev pub empty_content : MessageContent
empty_content = record { text = []; image = []; video = []; audio = []; file = []; custom = [] }

abbrev pub zero_message : MessageInfo
zero_message = record {
  id = pos 0;
  conversation_id = [];
  seq = pos 0;
  client_msg_id = [];
  sender_id = [];
  session_type = pos 0;
  msg_type = pos 0;
  content = empty_content;
  send_at = pos 0;
}

abbrev pub zero_conversation : ConversationInfo
zero_conversation = record {
  conversation_id = [];
  conversation_type = pos 0;
  peer_user_id = [];
  group_id = [];
  recv_msg_opt = pos 0;
  is_pinned = false;
  unread_count = pos 0;
  max_seq = pos 0;
  read_seq = pos 0;
  updated_at = pos 0;
  last_message = none;
}

abbrev pub zero_group : GroupInfo
zero_group = record {
  id = [];
  name = [];
  introduction = [];
  avatar = [];
  status = pos 0;
  creator_user_id = [];
  member_count = pos 0;
  created_at = pos 0;
}

abbrev pub zero_login : LoginResponse
zero_login = record { token = []; user_info = none }

abbrev pub zero_pull_messages : PullMessagesResponse
zero_pull_messages = record { messages = []; max_seq = pos 0 }

abbrev pub no_update : UpdateConversationRequest
no_update = record { recv_msg_opt = none; is_pinned = none }

abbrev pub no_list_request : GetConversationListRequest
no_list_request = record {
  with_last_message = none;
  limit = none;
  cursor_updated_at = none;
  cursor_conversation_id = none;
}

abbrev pub zero_conversation_list_page : ConversationListPage
zero_conversation_list_page = record { list = []; has_more = false; next_cursor = none }

abbrev pub zero_max_read_seq : MaxReadSeqResponse
zero_max_read_seq = record { max_seq = pos 0; read_seq = pos 0; unread_count = pos 0 }

abbrev pub zero_max_seq : MaxSeqResponse
zero_max_seq = record { max_seq = pos 0 }

abbrev pub zero_unread_count : UnreadCountResponse
zero_unread_count = record { unread_count = pos 0 }
