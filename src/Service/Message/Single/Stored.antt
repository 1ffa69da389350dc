-- ===== src/Service/Message/Single/Stored.antt =====
-- What a message sent to one user leaves in the tables (internal/service/message_service.go).
use nexo_im.Base.{pos, ◌+ℤ◌, Text, ◌≡◌, none, [], ◌∷◌, ◌++◌, find, arith}
use nexo_im.Errors.{ok}
use nexo_im.Entity.Message.{Message}
use nexo_im.Backend.{Db, Backend}
use nexo_im.Repository.Seq.{alloc_seq, sync_seq_to_mysql_with_tx, upsert_max_seq}
use nexo_im.Repository.Message.{at_seq, from_client, create}
use nexo_im.Repository.Conversation.{
  ensure_single_chat_conversations, upsert_conversation, single_chat,
}
use nexo_im.Repository.Outcomes.{counter, alloc_seq_cases, create_cases, sync_seq_cases}
use nexo_im.Service.Message.Single.{store_single}

module _ (b : Backend) where
  open b use {World, db, cache, clock, exec, exec_lem}

  pub ensure_single-messages :
      (c s r : Text) (w : World)
      → ((db (ensure_single_chat_conversations b c s r w).1).messages ≡ (db w).messages)
        × ((db (ensure_single_chat_conversations b c s r w).1).seq_conversations
            ≡ (db w).seq_conversations)
        × ((db (ensure_single_chat_conversations b c s r w).1).seq_users ≡ (db w).seq_users)
  unfolding ensure_single_chat_conversations upsert_conversation
  ensure_single-messages c s r w = ground (
    arith,
    exec_lem Unit (upsert_conversation (single_chat c s r) (clock w)) w,
    exec_lem Unit
        (upsert_conversation (single_chat c r s)
          (clock (exec Unit (upsert_conversation (single_chat c s r) (clock w)) w).1))
        (exec Unit (upsert_conversation (single_chat c s r) (clock w)) w).1,
  )

  -- The message that a transaction stores.
  pub record IsStored (msg : Message) (w : World) (m : Message) (d : Db) : Type 0 where
    pub seq : m.seq ≡ counter b w msg.conversation_id +ℤ pos 1
    pub rest :
        record m {
          id = msg.id;
          seq = msg.seq;
          created_at = msg.created_at;
          updated_at = msg.updated_at;
        }
        ≡ msg
    pub messages : d.messages ≡ (db w).messages ++ m ∷ []
    pub new_seq : find (at_seq m.conversation_id m.seq) (db w).messages ≡ none
    pub new_key : find (from_client m.sender_id m.client_msg_id) (db w).messages ≡ none
    pub max_seq :
        d.seq_conversations ≡ (upsert_max_seq msg.conversation_id m.seq (db w)).1.seq_conversations

  pub store_single-IsStored :
      (msg m : Message) (w : World)
      → (store_single b msg w).0 ≡ ok m
      → IsStored msg w m (db (store_single b msg w).1)
  unfolding store_single upsert_max_seq
  store_single-IsStored msg m w h =
      let w₁ = (alloc_seq b msg.conversation_id w).1 in
      let n = counter b w msg.conversation_id +ℤ pos 1 in
      let msg' = record msg { seq = n } in
      let w₂ = (create b msg' w₁).1 in
      let w₃ = (sync_seq_to_mysql_with_tx b msg.conversation_id n w₂).1 in
      ground (
        arith,
        alloc_seq_cases b msg.conversation_id w,
        create_cases b msg' w₁,
        sync_seq_cases b msg.conversation_id n w₂,
        ensure_single-messages msg.conversation_id msg.sender_id msg.recv_id w₃,
      )
