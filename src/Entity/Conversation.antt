-- ===== src/Entity/Conversation.antt =====
-- internal/entity/conversation.go
use nexo_im.Base.{ℤ, Text, Bool}

pub record Conversation : Type 0 where
  pub conversation_id : Text
  pub owner_id : Text
  pub conversation_type : ℤ
  pub peer_user_id : Text
  pub group_id : Text
  pub recv_msg_opt : ℤ
  pub is_pinned : Bool
  pub created_at : ℤ
  pub updated_at : ℤ
