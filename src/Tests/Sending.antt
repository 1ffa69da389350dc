-- ===== src/Tests/Sending.antt =====
-- Runs of sending (internal/service/message_service.go).
use nexo_im.Base.{
  is_some, false, none, pos, ◌+ℤ◌, codes, ◌=ₜ◌, ◌<ₜ◌, ◌≡◌, refl, true, some, [], ◌∷◌, find, upsert,
}
use nexo_im.Errors.{user_not_found, code, err, ok}
use nexo_im.Entity.ConversationId.{gen_single_conversation_id}
use nexo_im.Entity.Message.{Message}
use nexo_im.Entity.Message.Content.{payload_count}
use nexo_im.Backend.Memory.{State, memory, holding}
use nexo_im.Repository.Statement.{redis_key_seq_conversation, incr}
use nexo_im.Repository.Seq.{
  alloc_seq, upsert_max_seq, sync_seq_to_mysql_with_tx, first_seq_user, insert_seq_user,
  update_read_seq,
}
use nexo_im.Repository.Message.{insert_message, first_from_client, create, get_by_client_msg_id}
use nexo_im.Repository.Conversation.{upsert_conversation, ensure_single_chat_conversations}
use nexo_im.Repository.User.{count_user, exists}
use nexo_im.Service.Message.Content.{validate_message_content}
use nexo_im.Service.Message.Single.{
  Sent, single_message, store_single, mark_read, send_new_single, check_receiver, check_single,
  send_single_message,
}
use nexo_im.Service.Message.Group.{send_message}
use nexo_im.Service.Message.Single.Resend.{IsNew}
use nexo_im.Service.Message.Resend.{send_message_twice, send_message_atomic, send_message-IsNew}
use nexo_im.Repository.User.{of_id}
use nexo_im.Tests.Data.{eve, ann, bob, to_bob, message, two_users}

abbrev start : State
start = holding two_users

-- What ann's first message to bob is stored as.
abbrev first : Message
first = record (message (pos 1) (codes "m1")) {
  id = pos 4;
  send_at = pos 1000;
  created_at = pos 1000;
  updated_at = pos 1000;
}

first_sent :
    (send_message memory true ann to_bob true start).0
    ≡ ok (record { msg = first; push = some (ann ∷ bob ∷ []) })
unfolding send_message send_single_message check_single check_receiver send_new_single store_single
    single_message mark_read validate_message_content payload_count exists count_user
    get_by_client_msg_id first_from_client create insert_message alloc_seq incr
    redis_key_seq_conversation sync_seq_to_mysql_with_tx upsert_max_seq
    ensure_single_chat_conversations upsert_conversation update_read_seq first_seq_user
    insert_seq_user gen_single_conversation_id ◌=ₜ◌ ◌<ₜ◌ ◌+ℤ◌ find upsert
first_sent = refl

-- Ann sends the same message again.
sent_again :
    (send_message memory true ann to_bob false (send_message memory true ann to_bob true start).1).0
    ≡ ok (record { msg = first; push = none })
unfolding send_message send_single_message check_single check_receiver send_new_single store_single
    single_message mark_read validate_message_content payload_count exists count_user
    get_by_client_msg_id first_from_client create insert_message alloc_seq incr
    redis_key_seq_conversation sync_seq_to_mysql_with_tx upsert_max_seq
    ensure_single_chat_conversations upsert_conversation update_read_seq first_seq_user
    insert_seq_user gen_single_conversation_id ◌=ₜ◌ ◌<ₜ◌ ◌+ℤ◌ find upsert
sent_again = refl

unknown_sender : (send_message memory true eve to_bob true start).0 ≡ err (code user_not_found)
unfolding send_message send_single_message check_single validate_message_content payload_count
    exists count_user ◌=ₜ◌ find
unknown_sender = refl

abbrev again : Sent
again = record { msg = first; push = none }

send_message_twice_example :
    (again ≡ record { msg = first; push = none })
    × (memory.db
          (send_message memory true ann to_bob false
            (send_message memory true ann to_bob true start).1).1
        ≡ memory.db (send_message memory true ann to_bob true start).1)
send_message_twice_example =
    send_message_twice memory true ann to_bob true false start
      (send_message memory true ann to_bob true start).1
      (record { msg = first; push = some (ann ∷ bob ∷ []) }) again first_sent refl sent_again

send_message-IsNew_example :
    IsNew memory ann to_bob start first
      (memory.db (send_message memory true ann to_bob true start).1)
unfolding find
send_message-IsNew_example =
    send_message-IsNew memory true ann to_bob true start
      (record { msg = first; push = some (ann ∷ bob ∷ []) }) refl first_sent

send_message_atomic_example :
    memory.db (send_message memory true eve to_bob true start).1 ≡ two_users
send_message_atomic_example =
    send_message_atomic memory true eve to_bob true start (code user_not_found) unknown_sender

content_valid : validate_message_content to_bob.msg_type to_bob.content ≡ ok tt
unfolding validate_message_content payload_count
content_valid = refl

ann_exists : is_some (find (of_id ann) two_users.users) ≡ true
unfolding find ◌=ₜ◌
ann_exists = refl

bob_exists : is_some (find (of_id bob) two_users.users) ≡ true
unfolding find ◌=ₜ◌
bob_exists = refl
