-- ===== src/Sdk/Endpoints.antt =====
-- The methods and paths that sdk/auth.go, user.go, group.go, message.go and conversation.go call.
use nexo_im.Base.{Text, codes, ◌++◌}

-- One constructor for each method and path; `_internal` ones are under /im/internal.
pub data Endpoint : Type 0 where
  register login internal_register : Endpoint
  user_info update_user batch_info online_status : Endpoint
  profile internal_profile : Text → Endpoint
  internal_user_info internal_update_user internal_batch_info internal_online_status : Endpoint
  create_group join_group quit_group group_info group_members : Endpoint
  send send_without_mark_read internal_send internal_send_without_mark_read : Endpoint
  pull max_seq : Endpoint
  all_conversations conversation_list : Endpoint
  internal_all_conversations internal_conversation_list : Endpoint
  conversation_info mark_read max_read_seq unread_count : Endpoint
  update_conversation : Endpoint

unfoldable pub method_of : Endpoint → Text
method_of user_info = codes "GET"
method_of (profile u) = codes "GET"
method_of internal_user_info = codes "GET"
method_of (internal_profile u) = codes "GET"
method_of group_info = codes "GET"
method_of group_members = codes "GET"
method_of pull = codes "GET"
method_of max_seq = codes "GET"
method_of conversation_info = codes "GET"
method_of max_read_seq = codes "GET"
method_of unread_count = codes "GET"
method_of update_user = codes "PUT"
method_of internal_update_user = codes "PUT"
method_of update_conversation = codes "PUT"
method_of _ = codes "POST"

-- Without the query that UpdateConversation adds.
unfoldable pub path_of : Endpoint → Text
path_of register = codes "/im/auth/register"
path_of login = codes "/im/auth/login"
path_of internal_register = codes "/im/internal/auth/register"
path_of user_info = codes "/im/user/info"
path_of (profile user_id) = codes "/im/user/profile/" ++ user_id
path_of update_user = codes "/im/user/update"
path_of batch_info = codes "/im/user/batch_info"
path_of online_status = codes "/im/user/get_users_online_status"
path_of internal_user_info = codes "/im/internal/user/info"
path_of (internal_profile user_id) = codes "/im/internal/user/profile/" ++ user_id
path_of internal_update_user = codes "/im/internal/user/update"
path_of internal_batch_info = codes "/im/internal/user/batch_info"
path_of internal_online_status = codes "/im/internal/user/get_users_online_status"
path_of create_group = codes "/im/group/create"
path_of join_group = codes "/im/group/join"
path_of quit_group = codes "/im/group/quit"
path_of group_info = codes "/im/group/info"
path_of group_members = codes "/im/group/members"
path_of send = codes "/im/msg/send"
path_of send_without_mark_read = codes "/im/msg/send_without_mark_read"
path_of internal_send = codes "/im/internal/msg/send"
path_of internal_send_without_mark_read = codes "/im/internal/msg/send_without_mark_read"
path_of pull = codes "/im/msg/pull"
path_of max_seq = codes "/im/msg/max_seq"
path_of all_conversations = codes "/im/conversation/all"
path_of conversation_list = codes "/im/conversation/list"
path_of internal_all_conversations = codes "/im/internal/conversation/all"
path_of internal_conversation_list = codes "/im/internal/conversation/list"
path_of conversation_info = codes "/im/conversation/info"
path_of mark_read = codes "/im/conversation/mark_read"
path_of max_read_seq = codes "/im/conversation/max_read_seq"
path_of unread_count = codes "/im/conversation/unread_count"
path_of update_conversation = codes "/im/conversation/update"
