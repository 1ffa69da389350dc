-- ===== src/Service/Message/Resend.antt =====
-- `SendMessage` of internal/service/message_service.go, for chats of both kinds.
use nexo_im.Base.{Text, ◌≡◌, Bool, none, some, find, arith, Option-cases, inl, inr, ap, ◌∙◌}
use nexo_im.Errors.{Failure, ok, err}
use nexo_im.Entity.Message.{Message}
use nexo_im.Backend.{Db, Backend}
use nexo_im.Repository.Message.{from_client}
use nexo_im.Service.Message.Content.{SendMessageRequest}
use nexo_im.Service.Message.Single.{Sent}
use nexo_im.Service.Message.Group.{send_message}
use nexo_im.Service.Message.Single.Resend.{
  IsNew, send_single_message_atomic, send_single_message_idempotent, send_single_message-IsNew,
}
use nexo_im.Service.Message.Group.Resend.{
  send_group_message_atomic, send_group_message_idempotent, send_group_message-IsNew,
}

module _ (b : Backend) (pushing : Bool) (sender : Text) (req : SendMessageRequest)
    (mark : Bool) where
  open b use {World, db}

  -- A call of `SendMessage` that returns an error has not changed the tables.
  pub send_message_atomic :
      (w : World) (f : Failure)
      → (send_message b pushing sender req mark w).0 ≡ err f
      → db (send_message b pushing sender req mark w).1 ≡ db w
  unfolding send_message
  send_message_atomic w f h = ground (
    arith,
    send_single_message_atomic b pushing sender req mark w f,
    send_group_message_atomic b pushing sender req mark w f,
  )

  -- A message sent under a client_msg_id that the sender has not used is appended to the messages,
  -- is found under that client_msg_id afterwards, and has the number after the one that Redis had
  -- for its conversation.
  pub send_message-IsNew :
      (w : World) (s : Sent)
      → find (from_client sender req.client_msg_id) (db w).messages ≡ none
      → (send_message b pushing sender req mark w).0 ≡ ok s
      → IsNew b sender req w s.msg (db (send_message b pushing sender req mark w).1)
  unfolding send_message
  send_message-IsNew w s e h = ground (
    arith,
    send_single_message-IsNew b pushing sender req mark w s e,
    send_group_message-IsNew b pushing sender req mark w s e,
  )

  send_message_idempotent :
      (w : World) (m : Message) (s : Sent)
      → find (from_client sender req.client_msg_id) (db w).messages ≡ some m
      → (send_message b pushing sender req mark w).0 ≡ ok s
      → (s ≡ record { msg = m; push = none })
        × (db (send_message b pushing sender req mark w).1 ≡ db w)
  unfolding send_message
  send_message_idempotent w m s e h = ground (
    arith,
    send_single_message_idempotent b pushing sender req mark w m s e,
    send_group_message_idempotent b pushing sender req mark w m s e,
  )

  -- However a message was sent, it is found under its client_msg_id.
  pub send_message-find :
      (w : World) (s : Sent)
      → (send_message b pushing sender req mark w).0 ≡ ok s
      → find
          (from_client sender req.client_msg_id)
          (db (send_message b pushing sender req mark w).1).messages
        ≡ some s.msg
  send_message-find w s h =
      elim (Option-cases (find (from_client sender req.client_msg_id) (db w).messages)) [
        | inl new ↦ (send_message-IsNew w s new h).key
        | inr (m, old) ↦ ground (arith, send_message_idempotent w m s old h)
      ]

-- When a call of `SendMessage` has succeeded, a repetition of it, from whatever world with the same
-- tables, that succeeds too answers with the same message, pushes nothing and changes no table.
pub send_message_twice :
    (b : Backend) (pushing : Bool) (sender : Text) (req : SendMessageRequest) (mark mark' : Bool)
    (w v : b.World) (s t : Sent)
    → (send_message b pushing sender req mark w).0 ≡ ok s
    → b.db v ≡ b.db (send_message b pushing sender req mark w).1
    → (send_message b pushing sender req mark' v).0 ≡ ok t
    → (t ≡ record { msg = s.msg; push = none })
      × (b.db (send_message b pushing sender req mark' v).1 ≡ b.db v)
send_message_twice b pushing sender req mark mark' w v s t h e k =
    send_message_idempotent b pushing sender req mark' v s.msg t
      (ap (λ (d : Db). find (from_client sender req.client_msg_id) d.messages) e
        ∙ send_message-find b pushing sender req mark w s h)
      k
