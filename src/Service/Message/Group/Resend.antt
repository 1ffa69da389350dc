-- ===== src/Service/Message/Group/Resend.antt =====
-- Sending to a group as a whole (internal/service/message_service.go), and `SendMessage`.
use nexo_im.Base.{
  pos, ◌+ℤ◌, Text, =ₜ_refl, ◌≡◌, inl, inr, Bool, true, none, some, List, find, find-append_new,
  arith,
}
use nexo_im.Errors.{Failure, ok, err, is_ok}
use nexo_im.Entity.Message.{Message}
use nexo_im.Entity.Group.{Group}
use nexo_im.Entity.GroupMember.{GroupMember}
use nexo_im.Backend.{Backend}
use nexo_im.Backend.Leaves.{reading, Leaves, leaves}
use nexo_im.Repository.Seq.{alloc_seq, upsert_max_seq}
use nexo_im.Repository.Message.{from_client, get_by_client_msg_id, create}
use nexo_im.Repository.Group.{
  first_group, first_member, select_active, get_member, get_by_id, get_active_member_user_ids,
}
use nexo_im.Repository.Outcomes.{
  counter, alloc_seq_cases, create_cases, sync_seq_cases, get_by_client_msg_id_cases,
}
use nexo_im.Service.Message.Content.{SendMessageRequest}
use nexo_im.Service.Message.Single.{Sent, mark_read}
use nexo_im.Service.Message.Single.Stored.{IsStored}
use nexo_im.Service.Message.Single.Resend.{IsNew, mark_read_frame}
use nexo_im.Service.Message.Group.{
  group_message, store_group, push_to_group, send_new_group, check_group, send_group_message,
}

module _ (b : Backend) where
  open b use {World, db, cache, clock, exec_lem, transaction, transaction_lem}

  get_member_reads : (g u : Text) → Leaves (reading b) (get_member b g u)
  unfolding get_member first_member
  get_member_reads g u = record {
    at = λ w. ground (arith, exec_lem GroupMember (first_member g u) w);
  }

  get_by_id_reads : (g : Text) → Leaves (reading b) (get_by_id b g)
  unfolding get_by_id first_group
  get_by_id_reads g = record { at = λ w. ground (arith, exec_lem Group (first_group g) w) }

  push_to_group_reads :
      (p : Bool) (g : Text) (w : World)
      → (is_ok (push_to_group b p g w).0 ≡ true) × (db (push_to_group b p g w).1 ≡ db w)
  unfolding push_to_group get_active_member_user_ids select_active
  push_to_group_reads p g w = ground (arith, exec_lem (List GroupMember) (select_active g) w)

  check_group_reads :
      (u : Text) (req : SendMessageRequest) → Leaves (reading b) (check_group b u req)
  unfolding check_group
  check_group_reads u req = search (leaves, get_member_reads, get_by_id_reads) depth 14

  store_group-IsStored :
      (msg m : Message) (w : World)
      → (store_group b msg w).0 ≡ ok m
      → IsStored b msg w m (db (store_group b msg w).1)
  unfolding store_group upsert_max_seq
  store_group-IsStored msg m w h =
      let w₁ = (alloc_seq b msg.conversation_id w).1 in
      let n = counter b w msg.conversation_id +ℤ pos 1 in
      let msg' = record msg { seq = n } in
      let w₂ = (create b msg' w₁).1 in
      ground (
        arith,
        alloc_seq_cases b msg.conversation_id w,
        create_cases b msg' w₁,
        sync_seq_cases b msg.conversation_id n w₂,
      )

  send_new_group_fails :
      (p : Bool) (u : Text) (req : SendMessageRequest) (mark : Bool) (w : World) (f : Failure)
      → (send_new_group b p u req mark w).0 ≡ err f
      → db (send_new_group b p u req mark w).1 ≡ db w
  unfolding send_new_group
  send_new_group_fails p u req mark w f h =
      let body = store_group b (group_message u req (clock w)) in
      let r = transaction Message body w in
      elim (transaction_lem Message body w) [
        | inl (m, _, done, _) ↦ ground (
          arith,
          mark_read_frame b mark u m r.1,
          push_to_group_reads p req.group_id (mark_read b mark u m r.1).1,
        )
        | inr (g, failed, _, same) ↦ ground arith
      ]

  send_new_group-IsNew :
      (p : Bool) (u : Text) (req : SendMessageRequest) (mark : Bool) (w : World) (s : Sent)
      → (send_new_group b p u req mark w).0 ≡ ok s
      → IsNew b u req w s.msg (db (send_new_group b p u req mark w).1)
  unfolding send_new_group group_message
  send_new_group-IsNew p u req mark w s h =
      let msg = group_message u req (clock w) in
      let body = store_group b msg in
      let r = transaction Message body w in
      elim (transaction_lem Message body w) [
        | inl (m, ran, done, same) ↦
            let t : IsStored b msg w m (db (body w).1) = store_group-IsStored msg m w ran in
            ground (
              arith,
              mark_read_frame b mark u m r.1,
              push_to_group_reads p req.group_id (mark_read b mark u m r.1).1,
              t.messages,
              t.seq,
              t.rest,
              t.new_key,
              find-append_new (from_client u req.client_msg_id) (db w).messages m,
              =ₜ_refl u,
              =ₜ_refl req.client_msg_id,
            )
        | inr (g, failed, _, same) ↦ ground arith
      ]

module _ (b : Backend) (pushing : Bool) (sender : Text) (req : SendMessageRequest)
    (mark : Bool) where
  open b use {World, db, cache}

  -- The worlds in which the message is looked up, and after that.
  abbrev checked : World → World
  checked w = (check_group b sender req w).1

  abbrev looked_up : World → World
  looked_up w = (get_by_client_msg_id b sender req.client_msg_id (checked w)).1

  -- A send that fails leaves the tables as they were.
  pub send_group_message_atomic :
      (w : World) (f : Failure)
      → (send_group_message b pushing sender req mark w).0 ≡ err f
      → db (send_group_message b pushing sender req mark w).1 ≡ db w
  unfolding send_group_message
  send_group_message_atomic w f h = ground (
    arith,
    (check_group_reads b sender req).at w,
    get_by_client_msg_id_cases b sender req.client_msg_id (checked w),
    send_new_group_fails b pushing sender req mark (looked_up w) f,
  )

  -- A send under a client_msg_id that the sender has used answers with the message of then, pushes
  -- nothing and leaves the tables as they were.
  pub send_group_message_idempotent :
      (w : World) (m : Message) (s : Sent)
      → find (from_client sender req.client_msg_id) (db w).messages ≡ some m
      → (send_group_message b pushing sender req mark w).0 ≡ ok s
      → (s ≡ record { msg = m; push = none })
        × (db (send_group_message b pushing sender req mark w).1 ≡ db w)
  unfolding send_group_message
  send_group_message_idempotent w m s e h = ground (
    arith,
    (check_group_reads b sender req).at w,
    get_by_client_msg_id_cases b sender req.client_msg_id (checked w),
  )

  -- A send under a new client_msg_id appends one message, whose number is the next of the
  -- conversation's counter in Redis, and which is found under the client_msg_id from then on.
  pub send_group_message-IsNew :
      (w : World) (s : Sent)
      → find (from_client sender req.client_msg_id) (db w).messages ≡ none
      → (send_group_message b pushing sender req mark w).0 ≡ ok s
      → IsNew b sender req w s.msg (db (send_group_message b pushing sender req mark w).1)
  unfolding send_group_message
  send_group_message-IsNew w s e h = ground (
    arith,
    (check_group_reads b sender req).at w,
    get_by_client_msg_id_cases b sender req.client_msg_id (checked w),
    send_new_group-IsNew b pushing sender req mark (looked_up w) s,
  )
