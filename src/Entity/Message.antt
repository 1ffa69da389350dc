-- ===== src/Entity/Message.antt =====
-- internal/entity/message.go: messages and their content. A nil pointer is `none`.
pub mod Content
use nexo_im.Base.{ℤ, Text}
use Content.{MessageContent, FlatMessageContent, to_flat}

pub record Message : Type 0 where
  pub id : ℤ
  pub conversation_id : Text
  pub seq : ℤ
  pub client_msg_id : Text
  pub sender_id : Text
  pub recv_id : Text
  pub group_id : Text
  pub session_type : ℤ
  pub msg_type : ℤ
  pub content : MessageContent
  pub send_at : ℤ
  pub created_at : ℤ
  pub updated_at : ℤ

pub record MessageInfo : Type 0 where
  pub id : ℤ
  pub conversation_id : Text
  pub seq : ℤ
  pub client_msg_id : Text
  pub sender_id : Text
  pub session_type : ℤ
  pub msg_type : ℤ
  pub content : FlatMessageContent
  pub send_at : ℤ

unfoldable pub to_message_info : Message → MessageInfo
to_message_info m = record {
  id = m.id;
  conversation_id = m.conversation_id;
  seq = m.seq;
  client_msg_id = m.client_msg_id;
  sender_id = m.sender_id;
  session_type = m.session_type;
  msg_type = m.msg_type;
  content = to_flat m.content;
  send_at = m.send_at;
}
