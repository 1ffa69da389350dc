-- ===== src/Service/Message/Group.antt =====
-- internal/service/message_service.go: sending to a group, and `SendMessage`, which chooses.
pub mod Resend
use nexo_im.Base.{
  ℤ, pos, eqb_ℤ, Text, is_empty, not, Bool, true, false, ◌||◌, Option, none, some, List, [], ◌∷◌,
  if◌then◌else◌,
}
use nexo_im.Errors.{
  Failure, code, invalid_param, internal_server, not_group_member, member_not_active,
  group_not_found, group_dismissed, seq_alloc_failed, Result, ok, err,
}
use nexo_im.Entity.ConversationId.{gen_group_conversation_id}
use nexo_im.Entity.Message.{Message}
use nexo_im.Entity.Group.{is_normal}
use nexo_im.Entity.GroupMember
use nexo_im.Backend.{Backend}
use nexo_im.Backend.Monad.{Action, pure, fail, ◌>>=◌, ◌>>◌, attempt, or_fail, fail_if, gets, lift}
use nexo_im.Repository.Seq.{alloc_seq, sync_seq_to_mysql_with_tx}
use nexo_im.Repository.Message
use nexo_im.Repository.Message.{get_by_client_msg_id}
use nexo_im.Repository.Group.{get_member, get_by_id, get_active_member_user_ids}
use nexo_im.Service.Message.Content.{
  SendMessageRequest, session_type_single, session_type_group, validate_message_content,
}
use nexo_im.Service.Message.Single.{Sent, as_send_error, mark_read, answer, send_single_message}

unfoldable pub group_message : Text → SendMessageRequest → ℤ → Message
group_message sender_id req now = record {
  id = pos 0;
  conversation_id = gen_group_conversation_id req.group_id;
  seq = pos 0;
  client_msg_id = req.client_msg_id;
  sender_id = sender_id;
  recv_id = [];
  group_id = req.group_id;
  session_type = session_type_group;
  msg_type = req.msg_type;
  content = req.content;
  send_at = now;
  created_at = pos 0;
  updated_at = pos 0;
}

-- `if err == nil && len(memberIds) > 0 { push }`
abbrev pushed_to : Result (List Text) → Option (List Text)
pushed_to (err _) = none
pushed_to (ok []) = none
pushed_to (ok (m ∷ ms)) = some (m ∷ ms)

module _ (b : Backend) where
  open b use {World, transaction, clock}

  unfoldable pub store_group : Message → Action World Message
  store_group msg = do
    seq ← or_fail (alloc_seq b msg.conversation_id) (code seq_alloc_failed)
    created ← Message.create b (record msg { seq = seq })
    sync_seq_to_mysql_with_tx b msg.conversation_id seq
    pure created

  unfoldable pub push_to_group : Bool → Text → Action World (Option (List Text))
  push_to_group pushing group_id =
      if pushing
      then (do
        member_ids ← attempt (get_active_member_user_ids b group_id)
        pure (pushed_to member_ids))
      else pure none

  unfoldable pub send_new_group : Bool → Text → SendMessageRequest → Bool → Action World Sent
  send_new_group pushing sender_id req mark_sender_read = do
    now ← gets clock
    stored ← attempt (transaction Message (store_group (group_message sender_id req now)))
    msg ← lift (as_send_error stored)
    mark_read b mark_sender_read sender_id msg
    push ← push_to_group pushing req.group_id
    pure (record { msg = msg; push = push })

  unfoldable pub check_group : Text → SendMessageRequest → Action World (Unit {0})
  check_group sender_id req = do
    fail_if (is_empty req.group_id) (code invalid_param)
    fail_if (is_empty req.client_msg_id) (code invalid_param)
    lift (validate_message_content req.msg_type req.content)
    member ← or_fail (get_member b req.group_id sender_id) (code not_group_member)
    fail_if (not (GroupMember.is_normal member)) (code member_not_active)
    group ← or_fail (get_by_id b req.group_id) (code group_not_found)
    fail_if (not (is_normal group)) (code group_dismissed)

  unfoldable pub send_group_message : Bool → Text → SendMessageRequest → Bool → Action World Sent
  send_group_message pushing sender_id req mark_sender_read = do
    check_group sender_id req
    existing ← or_fail (get_by_client_msg_id b sender_id req.client_msg_id) (code internal_server)
    answer b existing (send_new_group pushing sender_id req mark_sender_read)

  -- `SendMessage` where the sender is to be marked as having read, and
  -- `SendMessageWithoutMarkRead` where not.
  unfoldable pub send_message : Bool → Text → SendMessageRequest → Bool → Action World Sent
  send_message pushing sender_id req mark_sender_read =
      if eqb_ℤ req.session_type session_type_single || not (is_empty req.recv_id)
      then send_single_message b pushing sender_id req mark_sender_read
      else if eqb_ℤ req.session_type session_type_group || not (is_empty req.group_id)
      then send_group_message pushing sender_id req mark_sender_read
      else fail (code invalid_param)
