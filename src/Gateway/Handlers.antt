-- ===== src/Gateway/Handlers.antt =====
-- internal/gateway/ws_server.go: the handlers of requests, over the services and the push queue that
-- the message service is given as its pusher.
use nexo_im.Base.{
  Bool, ℕ, ℤ, pos, ◌-ℤ◌, Text, ◌=ₜ◌, true, Option, none, some, List, [], ◌∷◌, map, upsert,
}
use nexo_im.Errors.{refused, code, invalid_param, Result, ok, err}
use nexo_im.Entity.Message.{Message}
use nexo_im.Backend.{Backend}
use nexo_im.Service.Message.Content.{SendMessageRequest}
use nexo_im.Backend.Monad.{Action, pure, ◌>>=◌, attempt, lift}
use nexo_im.Gateway.Push.{PushTask, async_push_to_users}
use nexo_im.Gateway.Wire.{Json, NewestSeq, to_service_request, send_msg_resp, message_to_msg_data}
use nexo_im.Service.Message.Group.{send_message}
use nexo_im.Service.Message.Pull.{pull_messages, get_max_seq}
use nexo_im.Service.Conversation.{get_max_read_seq, at_least_zero}

-- The services' world, and what waits in `pushChan`.
pub record Node (W : Type 0) : Type 0 where
  pub world : W
  pub push_chan : List PushTask

module _ {W : Type 0} where
  abbrev pub on_world : {A : Type 0} → Action W A → Action (Node W) A
  on_world m n = ((m n.world).0, record n { world = (m n.world).1 })

abbrev pushed : ℕ → Message → Option (List Text) → List PushTask → List PushTask
pushed capacity msg none queue = queue
pushed capacity msg (some user_ids) queue = (async_push_to_users capacity queue msg user_ids []).0

-- A failed Unmarshal is "invalid param", a failed Marshal another error.
abbrev pub decoded : {A : Type 0} → Option A → Result A
decoded none = err (code invalid_param)
decoded (some a) = ok a

abbrev pub encoded : Option Text → Result Text
encoded none = err refused
encoded (some t) = ok t

abbrev pub or_zero : Result ℤ → ℤ
or_zero (ok n) = n
or_zero (err f) = pos 0

module _ (b : Backend) (capacity : ℕ) where
  -- SendMessage of the message service, with its pusher.
  unfoldable pub send_and_push : Text → SendMessageRequest → Bool → Action (Node b.World) Message
  send_and_push sender_id req mark_sender_read = do
    sent ← on_world (send_message b true sender_id req mark_sender_read)
    (λ n. (ok sent.msg, record n { push_chan = pushed capacity sent.msg sent.push n.push_chan }))

  module _ (json : Json) where
    unfoldable pub handle_send_msg : Text → Text → Action (Node b.World) Text
    handle_send_msg user_id payload = do
      req ← lift (decoded (json.decode_send_msg payload))
      msg ← send_and_push user_id (to_service_request req) true
      lift (encoded (json.encode_send_msg (send_msg_resp msg)))

    unfoldable pub newest :
        Text → List Text → List NewestSeq → Action (Node b.World) (List NewestSeq)
    newest user_id [] seqs = pure seqs
    newest user_id (c ∷ cs) seqs = do
      max_seq ← attempt (on_world (get_max_seq b user_id c))
      newest user_id cs (
          upsert (λ e. e.conversation_id =ₜ c) (λ e. record e { max_seq = or_zero max_seq })
            (record { conversation_id = c; max_seq = or_zero max_seq }) seqs)

    unfoldable pub handle_get_newest_seq : Text → Text → Action (Node b.World) Text
    handle_get_newest_seq user_id payload = do
      req ← lift (decoded (json.decode_newest_seq payload))
      seqs ← newest user_id req.conversation_ids []
      lift (encoded (json.encode_newest_seq seqs))

    unfoldable pub handle_pull_msg : Text → Text → Action (Node b.World) Text
    handle_pull_msg user_id payload = do
      req ← lift (decoded (json.decode_pull_msg payload))
      (messages, max_seq) ← on_world (
          pull_messages b user_id (record {
            conversation_id = req.conversation_id;
            begin_seq = req.begin_seq;
            end_seq = req.end_seq;
            limit = req.limit;
          }))
      lift (
          encoded (
            json.encode_pull_msg
              (record { messages = map message_to_msg_data messages; max_seq = max_seq })))

    -- The list of sequence numbers is not looked at.
    unfoldable pub handle_pull_msg_by_seq_list : Text → Text → Action (Node b.World) Text
    handle_pull_msg_by_seq_list = handle_pull_msg

    unfoldable pub handle_get_conv_max_read_seq : Text → Text → Action (Node b.World) Text
    handle_get_conv_max_read_seq user_id payload = do
      req ← lift (decoded (json.decode_max_read_seq payload))
      (max_seq, read_seq) ← on_world (get_max_read_seq b user_id req.conversation_id)
      lift (
          encoded (
            json.encode_max_read_seq (record {
              max_seq = max_seq;
              read_seq = read_seq;
              unread_count = at_least_zero (max_seq -ℤ read_seq);
            })))
