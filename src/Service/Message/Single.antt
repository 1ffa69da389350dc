-- ===== src/Service/Message/Single.antt =====
-- internal/service/message_service.go: sending to one user. What `AsyncPushToUsers` is given is a
-- part of the result.
pub mod Stored
pub mod Resend
use nexo_im.Base.{
  ℤ, pos, Text, ◌=ₜ◌, is_empty, not, Bool, true, false, Option, none, some, List, [], ◌∷◌,
  if◌then◌else◌,
}
use nexo_im.Errors.{
  Failure, code, invalid_param, internal_server, user_not_found, seq_alloc_failed, send_failed,
  Result, ok, err,
}
use nexo_im.Entity.ConversationId.{gen_single_conversation_id}
use nexo_im.Entity.Message.{Message}
use nexo_im.Backend.{Backend}
use nexo_im.Backend.Monad.{Action, pure, fail, ◌>>=◌, ◌>>◌, attempt, or_fail, fail_if, gets, lift}
use nexo_im.Repository.Seq.{alloc_seq, sync_seq_to_mysql_with_tx, update_read_seq}
use nexo_im.Repository.Message
use nexo_im.Repository.Message.{get_by_client_msg_id}
use nexo_im.Repository.Conversation.{ensure_single_chat_conversations}
use nexo_im.Repository.User.{exists}
use nexo_im.Service.Message.Content.{
  SendMessageRequest, session_type_single, session_type_group, validate_message_content,
}

-- The message that is returned, and the users that it is pushed to, where it is pushed.
pub record Sent : Type 0 where
  pub msg : Message
  pub push : Option (List Text)

-- An `*errcode.Error` is returned as it is, any other error as "send failed".
abbrev pub send_error : Failure → Failure
send_error (code c) = code c
send_error f = code send_failed

abbrev pub as_send_error : {A : Type 0} → Result A → Result A
as_send_error (ok a) = ok a
as_send_error (err f) = err (send_error f)

unfoldable pub single_message : Text → SendMessageRequest → ℤ → Message
single_message sender_id req now = record {
  id = pos 0;
  conversation_id = gen_single_conversation_id sender_id req.recv_id;
  seq = pos 0;
  client_msg_id = req.client_msg_id;
  sender_id = sender_id;
  recv_id = req.recv_id;
  group_id = [];
  session_type = session_type_single;
  msg_type = req.msg_type;
  content = req.content;
  send_at = now;
  created_at = pos 0;
  updated_at = pos 0;
}

module _ (b : Backend) where
  open b use {World, transaction, clock}

  -- The body of the transaction. `msg` has no sequence number yet.
  unfoldable pub store_single : Message → Action World Message
  store_single msg = do
    seq ← or_fail (alloc_seq b msg.conversation_id) (code seq_alloc_failed)
    created ← Message.create b (record msg { seq = seq })
    sync_seq_to_mysql_with_tx b msg.conversation_id seq
    ensure_single_chat_conversations b msg.conversation_id msg.sender_id msg.recv_id
    pure created

  unfoldable pub mark_read : Bool → Text → Message → Action World (Unit {0})
  mark_read mark_sender_read sender_id msg =
      if mark_sender_read
      then (do attempt (update_read_seq b sender_id msg.conversation_id msg.seq); pure tt)
      else pure tt

  -- From the id of the conversation on: nothing was sent under this client_msg_id. `pushing` tells
  -- whether a pusher is set.
  unfoldable pub send_new_single : Bool → Text → SendMessageRequest → Bool → Action World Sent
  send_new_single pushing sender_id req mark_sender_read = do
    now ← gets clock
    stored ← attempt (transaction Message (store_single (single_message sender_id req now)))
    msg ← lift (as_send_error stored)
    mark_read mark_sender_read sender_id msg
    pure
        (record { msg = msg; push = if pushing then some (sender_id ∷ req.recv_id ∷ []) else none })

  abbrev pub answer : Option Message → Action World Sent → Action World Sent
  answer (some existing) _ = pure (record { msg = existing; push = none })
  answer none send = send

  unfoldable pub check_receiver : Text → SendMessageRequest → Action World (Unit {0})
  check_receiver sender_id req = if req.recv_id =ₜ sender_id then pure tt else do
    recv_exists ← or_fail (exists b req.recv_id) (code internal_server)
    fail_if (not recv_exists) (code user_not_found)

  -- What is checked before anything is looked up under the client_msg_id.
  unfoldable pub check_single : Text → SendMessageRequest → Action World (Unit {0})
  check_single sender_id req = do
    fail_if (is_empty req.recv_id) (code invalid_param)
    fail_if (is_empty req.client_msg_id) (code invalid_param)
    lift (validate_message_content req.msg_type req.content)
    sender_exists ← or_fail (exists b sender_id) (code internal_server)
    fail_if (not sender_exists) (code user_not_found)
    check_receiver sender_id req

  unfoldable pub send_single_message : Bool → Text → SendMessageRequest → Bool → Action World Sent
  send_single_message pushing sender_id req mark_sender_read = do
    check_single sender_id req
    existing ← or_fail (get_by_client_msg_id b sender_id req.client_msg_id) (code internal_server)
    answer existing (send_new_single pushing sender_id req mark_sender_read)
