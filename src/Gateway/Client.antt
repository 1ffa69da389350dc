-- ===== src/Gateway/Client.antt =====
-- internal/gateway/client.go: a client reads a request, has it handled and answers. A client's mutex
-- makes writing a response and closing one step each.
pub mod Replies
pub mod Kick
pub mod Reading
pub mod Life
use nexo_im.Base.{
  ℕ, ℤ, pos, eqb_ℤ, Text, codes, ◌=ₜ◌, is_empty, not, Bool, true, false, ◌&&◌, Option, none, some,
  [], if◌then◌else◌,
}
use nexo_im.Errors.{Failure, Result, ok, err}
use nexo_im.Backend.{Backend}
use nexo_im.Gateway.UserMap
use nexo_im.Gateway.Conn
use nexo_im.Gateway.Conn.{Conn, WriteError, write_message}
use nexo_im.Gateway.Wire.{Json, WsRequest, WsResponse, MessageData, PushMsgData}
use nexo_im.Gateway.Handlers.{
  Node, handle_send_msg, handle_get_newest_seq, handle_pull_msg, handle_pull_msg_by_seq_list,
  handle_get_conv_max_read_seq,
}

abbrev pub ws_get_newest_seq : ℤ
ws_get_newest_seq = pos 1001

abbrev pub ws_pull_msg_by_seq_list : ℤ
ws_pull_msg_by_seq_list = pos 1002

abbrev pub ws_send_msg : ℤ
ws_send_msg = pos 1003

abbrev pub ws_pull_msg : ℤ
ws_pull_msg = pos 1005

abbrev pub ws_get_conv_max_read_seq : ℤ
ws_get_conv_max_read_seq = pos 1006

abbrev pub ws_push_msg : ℤ
ws_push_msg = pos 2001

abbrev pub ws_kick_online_msg : ℤ
ws_kick_online_msg = pos 2002

-- The error of a write: that of the connection, or of encoding.
pub data SendError : Type 0 where
  on_conn : WriteError → SendError
  marshal_failed : SendError

pub record Session : Type 0 where
  pub client : UserMap.Client
  pub closed : Bool
  pub conn : Conn

-- A client with the services behind it.
pub record Peer (W : Type 0) : Type 0 where
  pub session : Session
  pub node : Node W

abbrev sent_error : Option WriteError → Option SendError
sent_error none = none
sent_error (some e) = some (on_conn e)

abbrev write_encoded : Option Text → Session → Option SendError × Session
write_encoded none s = (some marshal_failed, s)
write_encoded (some encoded) s = (
  sent_error (write_message encoded s.conn).0,
  record s { conn = (write_message encoded s.conn).1 },
)

abbrev pub error_response : WsRequest → Text → WsResponse
error_response req msg = record {
  req_identifier = req.req_identifier;
  msg_incr = req.msg_incr;
  operation_id = req.operation_id;
  err_code = pos 1;
  err_msg = msg;
  payload = [];
}

-- `error_text` is Error() of what a service answers.
abbrev pub response_to : (Failure → Text) → WsRequest → Result Text → WsResponse
response_to error_text req (err f) = error_response req (error_text f)
response_to error_text req (ok payload) = record {
  req_identifier = req.req_identifier;
  msg_incr = req.msg_incr;
  operation_id = req.operation_id;
  err_code = pos 0;
  err_msg = [];
  payload = payload;
}

abbrev pub kick_response : WsResponse
kick_response = record {
  req_identifier = ws_kick_online_msg;
  msg_incr = [];
  operation_id = [];
  err_code = pos 0;
  err_msg = [];
  payload = [];
}

abbrev pub push_response : Text → WsResponse
push_response payload = record {
  req_identifier = ws_push_msg;
  msg_incr = [];
  operation_id = [];
  err_code = pos 0;
  err_msg = [];
  payload = payload;
}

module _ (json : Json) where
  unfoldable pub write_response : WsResponse → Session → Option SendError × Session
  write_response resp s =
      if s.closed then (none, s) else write_encoded (json.encode_response resp) s

  abbrev push_encoded : Option Text → Session → Option SendError × Session
  push_encoded none s = (some marshal_failed, s)
  push_encoded (some payload) s = write_response (push_response payload) s

  unfoldable pub push_message : MessageData → Session → Option SendError × Session
  push_message msg s =
      if s.closed
      then (some (on_conn Conn.conn_closed), s)
      else push_encoded
          (json.encode_push_msg (record { conversation_id = msg.conversation_id; msg = msg })) s

  unfoldable pub close : Session → Session
  close s = if s.closed then s else record s { closed = true; conn = Conn.close s.conn }

  unfoldable pub kick_online : Session → Session
  kick_online s = close (write_response kick_response s).1

  module _ (b : Backend) (capacity : ℕ) (error_text : Failure → Text) where
    abbrev handled : Result Text × Node b.World → Option (Result Text) × Node b.World
    handled (r, n) = (some r, n)

    -- `switch req.ReqIdentifier`; `none` is the default.
    unfoldable pub dispatch : Text → WsRequest → Node b.World → Option (Result Text) × Node b.World
    dispatch user_id req n =
        if eqb_ℤ req.req_identifier ws_get_newest_seq
        then handled (handle_get_newest_seq b capacity json user_id req.payload n)
        else if eqb_ℤ req.req_identifier ws_send_msg
        then handled (handle_send_msg b capacity json user_id req.payload n)
        else if eqb_ℤ req.req_identifier ws_pull_msg_by_seq_list
        then handled (handle_pull_msg_by_seq_list b capacity json user_id req.payload n)
        else if eqb_ℤ req.req_identifier ws_pull_msg
        then handled (handle_pull_msg b capacity json user_id req.payload n)
        else if eqb_ℤ req.req_identifier ws_get_conv_max_read_seq
        then handled (handle_get_conv_max_read_seq b capacity json user_id req.payload n)
        else (none, n)

    abbrev pub respond : WsResponse → Session → Node b.World → Option SendError × Peer b.World
    respond resp s n =
        ((write_response resp s).0, record { session = (write_response resp s).1; node = n })

    abbrev pub answered :
        WsRequest → Session → Option (Result Text) × Node b.World → Option SendError × Peer b.World
    answered req s (none, n) = respond (error_response req (codes "invalid protocol")) s n
    answered req s (some r, n) = respond (response_to error_text req r) s n

    abbrev pub handle_decoded : WsRequest × Bool → Peer b.World → Option SendError × Peer b.World
    handle_decoded (req, valid) p =
        if not valid
        then respond (error_response req (codes "invalid protocol")) p.session p.node
        else if not (is_empty req.send_id) && not (req.send_id =ₜ p.session.client.user_id)
        then respond (error_response req (codes "user Id mismatch")) p.session p.node
        else answered req p.session (dispatch p.session.client.user_id req p.node)

    unfoldable pub handle_message : Text → Peer b.World → Option SendError × Peer b.World
    handle_message message p = handle_decoded (json.decode_request message) p
