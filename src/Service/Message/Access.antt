-- ===== src/Service/Message/Access.antt =====
-- internal/service/message_service.go: who may read a conversation.
pub mod Participants
use nexo_im.Base.{
  ℕ, Text, codes, ◌=ₜ◌, cut, Bool, true, false, ◌||◌, Option, none, some, if◌then◌else◌, ltb, leb,
  length, take, drop,
}
use nexo_im.Errors.{Result, ok, err}
use nexo_im.Entity.ConversationId.{colon, single_conversation_prefix, group_conversation_prefix}
use nexo_im.Entity.GroupMember.{GroupMember, is_normal}
use nexo_im.Backend.{Backend}
use nexo_im.Backend.Monad.{Action, pure, ◌>>=◌, attempt}
use nexo_im.Repository.Group.{get_member}

abbrev either_is : Text → Option (Text × Text) → Bool
either_is user_id none = false
either_is user_id (some (user_a, user_b)) = user_a =ₜ user_id || user_b =ₜ user_id

unfoldable pub contains_user_id : Text → Text → Bool
contains_user_id participants user_id = either_is user_id (cut colon participants)

unfoldable pub check_single_chat_access : Text → Text → Bool
unfolding contains_user_id
check_single_chat_access user_id conversation_id =
    if leb (length conversation_id) 3
    then false
    else contains_user_id (drop 3 conversation_id) user_id

module _ (b : Backend) where
  open b use {World}

  -- Any error counts as "not a member".
  abbrev normal_member : Result GroupMember → Bool
  normal_member (err _) = false
  normal_member (ok m) = is_normal m

  unfoldable pub check_group_chat_access : Text → Text → Action World Bool
  check_group_chat_access user_id group_id = do
    member ← attempt (get_member b group_id user_id)
    pure (normal_member member)

  unfoldable pub check_conversation_access : Text → Text → Action World Bool
  check_conversation_access user_id conversation_id =
      if ltb (length conversation_id) 3
      then pure false
      else if take 3 conversation_id =ₜ single_conversation_prefix
      then pure (check_single_chat_access user_id conversation_id)
      else if take 3 conversation_id =ₜ group_conversation_prefix
      then check_group_chat_access user_id (drop 3 conversation_id)
      else pure false
