-- ===== src/Service/Message/Single/Resend.antt =====
-- Sending to one user as a whole (internal/service/message_service.go): errors change nothing, and
-- a client_msg_id is used once.
use nexo_im.Base.{
  pos, ◌+ℤ◌, Text, =ₜ_refl, ◌≡◌, inl, inr, Bool, none, some, [], ◌∷◌, ◌++◌, find, find-append_new,
  arith,
}
use nexo_im.Errors.{Failure, ok, err}
use nexo_im.Entity.Message.{Message}
use nexo_im.Backend.{Db, Backend}
use nexo_im.Backend.Leaves.{reading, Leaves, leaves}
use nexo_im.Repository.Message.{from_client, get_by_client_msg_id}
use nexo_im.Repository.Seq.ReadSeq.{update_read_seq_frame}
use nexo_im.Repository.Outcomes.{counter, exists_reads, get_by_client_msg_id_cases}
use nexo_im.Service.Message.Content.{SendMessageRequest}
use nexo_im.Service.Message.Single.{
  Sent, single_message, store_single, mark_read, send_new_single, check_receiver, check_single,
  send_single_message,
}
use nexo_im.Service.Message.Single.Stored.{IsStored, store_single-IsStored}

module _ (b : Backend) where
  open b use {World, db, cache, clock, transaction, transaction_lem}

  pub mark_read_frame :
      (mark : Bool) (u : Text) (m : Message) (w : World)
      → ((mark_read b mark u m w).0 ≡ ok tt)
        × (db (mark_read b mark u m w).1
            ≡ record (db w) { seq_users = (db (mark_read b mark u m w).1).seq_users })
  unfolding mark_read
  mark_read_frame mark u m w = ground (arith, update_read_seq_frame b u m.conversation_id m.seq w)

  -- The tables after a new message `m`: its row, and what else the transaction and the mark wrote.
  pub record IsNew (sender : Text) (req : SendMessageRequest) (w : World) (m : Message) (d : Db)
      : Type 0 where
    pub messages : d.messages ≡ (db w).messages ++ m ∷ []
    pub key : find (from_client sender req.client_msg_id) d.messages ≡ some m
    pub seq : m.seq ≡ counter b w m.conversation_id +ℤ pos 1

  send_new_single_fails :
      (p : Bool) (u : Text) (req : SendMessageRequest) (mark : Bool) (w : World) (f : Failure)
      → (send_new_single b p u req mark w).0 ≡ err f
      → db (send_new_single b p u req mark w).1 ≡ db w
  unfolding send_new_single
  send_new_single_fails p u req mark w f h =
      let body = store_single b (single_message u req (clock w)) in
      let r = transaction Message body w in
      elim (transaction_lem Message body w) [
        | inl (m, _, done, _) ↦ ground (arith, mark_read_frame mark u m r.1)
        | inr (g, failed, _, same) ↦ ground arith
      ]

  send_new_single-IsNew :
      (p : Bool) (u : Text) (req : SendMessageRequest) (mark : Bool) (w : World) (s : Sent)
      → (send_new_single b p u req mark w).0 ≡ ok s
      → IsNew u req w s.msg (db (send_new_single b p u req mark w).1)
  unfolding send_new_single single_message
  send_new_single-IsNew p u req mark w s h =
      let msg = single_message u req (clock w) in
      let body = store_single b msg in
      let r = transaction Message body w in
      elim (transaction_lem Message body w) [
        | inl (m, ran, done, same) ↦
            let t : IsStored b msg w m (db (body w).1) = store_single-IsStored b msg m w ran in
            ground (
              arith,
              mark_read_frame mark u m r.1,
              t.messages,
              t.seq,
              t.rest,
              t.new_key,
              find-append_new (from_client u req.client_msg_id) (db w).messages m,
              =ₜ_refl u,
              =ₜ_refl req.client_msg_id,
            )
        | inr (g, failed, _, same) ↦ ground arith
      ]

module _ (b : Backend) (pushing : Bool) (sender : Text) (req : SendMessageRequest)
    (mark : Bool) where
  open b use {World, db, cache}

  check_receiver_reads : Leaves (reading b) (check_receiver b sender req)
  unfolding check_receiver
  check_receiver_reads = search (leaves, exists_reads b) depth 8

  check_single_reads : Leaves (reading b) (check_single b sender req)
  unfolding check_single
  check_single_reads = search (leaves, exists_reads b, check_receiver_reads) depth 12

  -- The worlds in which the message is looked up, and after that.
  abbrev checked : World → World
  checked w = (check_single b sender req w).1

  abbrev looked_up : World → World
  looked_up w = (get_by_client_msg_id b sender req.client_msg_id (checked w)).1

  -- A send that fails leaves the tables as they were.
  pub send_single_message_atomic :
      (w : World) (f : Failure)
      → (send_single_message b pushing sender req mark w).0 ≡ err f
      → db (send_single_message b pushing sender req mark w).1 ≡ db w
  unfolding send_single_message
  send_single_message_atomic w f h = ground (
    arith,
    check_single_reads.at w,
    get_by_client_msg_id_cases b sender req.client_msg_id (checked w),
    send_new_single_fails b pushing sender req mark (looked_up w) f,
  )

  -- A send under a client_msg_id that the sender has used answers with the message of then, pushes
  -- nothing and leaves the tables as they were.
  pub send_single_message_idempotent :
      (w : World) (m : Message) (s : Sent)
      → find (from_client sender req.client_msg_id) (db w).messages ≡ some m
      → (send_single_message b pushing sender req mark w).0 ≡ ok s
      → (s ≡ record { msg = m; push = none })
        × (db (send_single_message b pushing sender req mark w).1 ≡ db w)
  unfolding send_single_message
  send_single_message_idempotent w m s e h = ground (
    arith,
    check_single_reads.at w,
    get_by_client_msg_id_cases b sender req.client_msg_id (checked w),
  )

  -- A send under a new client_msg_id appends one message, whose number is the next of the
  -- conversation's counter in Redis, and which is found under the client_msg_id from then on.
  pub send_single_message-IsNew :
      (w : World) (s : Sent)
      → find (from_client sender req.client_msg_id) (db w).messages ≡ none
      → (send_single_message b pushing sender req mark w).0 ≡ ok s
      → IsNew b sender req w s.msg (db (send_single_message b pushing sender req mark w).1)
  unfolding send_single_message
  send_single_message-IsNew w s e h = ground (
    arith,
    check_single_reads.at w,
    get_by_client_msg_id_cases b sender req.client_msg_id (checked w),
    send_new_single-IsNew b pushing sender req mark (looked_up w) s,
  )
