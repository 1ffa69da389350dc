-- ===== src/Handler/Message.antt =====
-- internal/handler/message_handler.go
pub mod MaxSeq
use nexo_im.Base.{
  ℕ, ℤ, Text, is_empty, Bool, true, false, Option, none, some, List, map, if◌then◌else◌,
}
use nexo_im.Strconv.{parse_int}
use nexo_im.Errors.{Code, unauthorized, invalid_param, Result, ok, err}
use nexo_im.Entity.Message.{MessageInfo, to_message_info}
use nexo_im.Entity.Message.Content.{FlatMessageContent, new_message_content_from_flat}
use nexo_im.Backend.{Backend}
use nexo_im.Backend.Monad.{Action, pure, ◌>>=◌}
use nexo_im.Response.{Response, respond, error_with_code}
use nexo_im.Service.Message.Content.{SendMessageRequest}
use nexo_im.Service.Message.Pull.{PullMessagesRequest, pull_messages}
use nexo_im.Service.Message.Pull
use nexo_im.Gateway.Handlers.{Node, send_and_push}

-- A handler answers and leaves the state that its service left.
abbrev pub Handler : Type 0 → Type 0 → Type 0
Handler W A = W → Response A × W

module _ {W : Type 0} {A : Type 0} where
  abbrev pub answers : Action W A → Handler W A
  answers m w = (respond (m w).0, (m w).1)

  abbrev pub rejects : Code → Handler W A
  rejects c w = (error_with_code c, w)

pub record SendBody : Type 0 where
  pub client_msg_id : Text
  pub recv_id : Text
  pub group_id : Text
  pub session_type : ℤ
  pub msg_type : ℤ
  pub content : FlatMessageContent

unfoldable pub send_request : SendBody → SendMessageRequest
send_request req = record {
  client_msg_id = req.client_msg_id;
  recv_id = req.recv_id;
  group_id = req.group_id;
  session_type = req.session_type;
  msg_type = req.msg_type;
  content = new_message_content_from_flat req.content;
}

pub record PulledMessages : Type 0 where
  pub messages : List MessageInfo
  pub max_seq : ℤ

module _ (b : Backend) (capacity : ℕ) where
  abbrev sends : Text → Bool → Option SendBody → Handler (Node b.World) MessageInfo
  sends user_id mark none = rejects invalid_param
  sends user_id mark (some req) = answers (do
    msg ← send_and_push b capacity user_id (send_request req) mark
    pure (to_message_info msg))

  unfoldable pub send_message : Text → Option SendBody → Handler (Node b.World) MessageInfo
  send_message user_id body =
      if is_empty user_id then rejects unauthorized else sends user_id true body

  unfoldable pub send_message_without_mark_read :
      Text → Option SendBody → Handler (Node b.World) MessageInfo
  send_message_without_mark_read user_id body =
      if is_empty user_id then rejects unauthorized else sends user_id false body

-- A number of the query that is not one counts as what ParseInt gives with the error.
abbrev pub query_number : Text → ℤ
query_number s = (parse_int s).0

module _ (b : Backend) where
  open b use {World}

  unfoldable pub pull_messages_page :
      Text → Text → Text → Text → Text → Handler World PulledMessages
  pull_messages_page user_id conversation_id begin_seq end_seq limit =
      if is_empty user_id
      then rejects unauthorized
      else if is_empty conversation_id
      then rejects invalid_param
      else answers (do
        (messages, max_seq) ← pull_messages b user_id (record {
          conversation_id = conversation_id;
          begin_seq = query_number begin_seq;
          end_seq = query_number end_seq;
          limit = query_number limit;
        })
        pure (record { messages = map to_message_info messages; max_seq = max_seq }))

  unfoldable pub get_max_seq : Text → Text → Handler World ℤ
  get_max_seq user_id conversation_id =
      if is_empty user_id
      then rejects unauthorized
      else if is_empty conversation_id
      then rejects invalid_param
      else answers (Pull.get_max_seq b user_id conversation_id)
