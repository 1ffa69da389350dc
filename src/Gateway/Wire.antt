-- ===== src/Gateway/Wire.antt =====
-- internal/gateway/protocol.go, and the conversions of internal/gateway/ws_server.go to and from it.
-- encoding/json is a parameter.
use nexo_im.Base.{ℤ, Text, Bool, Option, List}
use nexo_im.Entity.Message.{Message}
use nexo_im.Entity.Message.Content.{MessageContent, new_message_content_from_flat, to_flat}
use nexo_im.Service.Message.Content.{SendMessageRequest}

pub record WsRequest : Type 0 where
  pub req_identifier : ℤ
  pub msg_incr : Text
  pub operation_id : Text
  pub token : Text
  pub send_id : Text
  pub payload : Text

pub record WsResponse : Type 0 where
  pub req_identifier : ℤ
  pub msg_incr : Text
  pub operation_id : Text
  pub err_code : ℤ
  pub err_msg : Text
  pub payload : Text

pub record WireMessageContent : Type 0 where
  pub text : Text
  pub image : Text
  pub video : Text
  pub audio : Text
  pub file : Text
  pub custom : Text

pub record SendMsgReq : Type 0 where
  pub client_msg_id : Text
  pub recv_id : Text
  pub group_id : Text
  pub session_type : ℤ
  pub msg_type : ℤ
  pub content : WireMessageContent

pub record SendMsgResp : Type 0 where
  pub server_msg_id : ℤ
  pub conversation_id : Text
  pub seq : ℤ
  pub client_msg_id : Text
  pub send_at : ℤ

pub record PullMsgReq : Type 0 where
  pub conversation_id : Text
  pub begin_seq : ℤ
  pub end_seq : ℤ
  pub limit : ℤ
  pub seq_list : List ℤ

pub record MessageData : Type 0 where
  pub server_msg_id : ℤ
  pub conversation_id : Text
  pub seq : ℤ
  pub client_msg_id : Text
  pub sender_id : Text
  pub recv_id : Text
  pub group_id : Text
  pub session_type : ℤ
  pub msg_type : ℤ
  pub content : WireMessageContent
  pub send_at : ℤ

pub record PullMsgResp : Type 0 where
  pub messages : List MessageData
  pub max_seq : ℤ

pub record GetNewestSeqReq : Type 0 where
  pub conversation_ids : List Text

-- An entry of the map `seqs`.
pub record NewestSeq : Type 0 where
  pub conversation_id : Text
  pub max_seq : ℤ

pub record GetConvMaxReadSeqReq : Type 0 where
  pub conversation_id : Text

pub record GetConvMaxReadSeqResp : Type 0 where
  pub max_seq : ℤ
  pub read_seq : ℤ
  pub unread_count : ℤ

-- PushMsgData with its one entry: a conversation id and one message.
pub record PushMsgData : Type 0 where
  pub conversation_id : Text
  pub msg : MessageData

-- encoding/json: `none` is an error. A request that does not decode may be filled in part.
pub record Json : Type 0 where
  pub decode_request : Text → WsRequest × Bool
  pub decode_send_msg : Text → Option SendMsgReq
  pub decode_pull_msg : Text → Option PullMsgReq
  pub decode_newest_seq : Text → Option GetNewestSeqReq
  pub decode_max_read_seq : Text → Option GetConvMaxReadSeqReq
  pub encode_response : WsResponse → Option Text
  pub encode_send_msg : SendMsgResp → Option Text
  pub encode_pull_msg : PullMsgResp → Option Text
  pub encode_newest_seq : List NewestSeq → Option Text
  pub encode_max_read_seq : GetConvMaxReadSeqResp → Option Text
  pub encode_push_msg : PushMsgData → Option Text

unfoldable pub wire_content_to_entity_content : WireMessageContent → MessageContent
wire_content_to_entity_content c = new_message_content_from_flat (record {
  text = c.text;
  image = c.image;
  video = c.video;
  audio = c.audio;
  file = c.file;
  custom = c.custom;
})

unfoldable pub entity_content_to_wire_content : MessageContent → WireMessageContent
entity_content_to_wire_content c =
    let flat = to_flat c in
    record {
      text = flat.text;
      image = flat.image;
      video = flat.video;
      audio = flat.audio;
      file = flat.file;
      custom = flat.custom;
    }

unfoldable pub message_to_msg_data : Message → MessageData
message_to_msg_data msg = record {
  server_msg_id = msg.id;
  conversation_id = msg.conversation_id;
  seq = msg.seq;
  client_msg_id = msg.client_msg_id;
  sender_id = msg.sender_id;
  recv_id = msg.recv_id;
  group_id = msg.group_id;
  session_type = msg.session_type;
  msg_type = msg.msg_type;
  content = entity_content_to_wire_content msg.content;
  send_at = msg.send_at;
}

unfoldable pub to_service_request : SendMsgReq → SendMessageRequest
to_service_request req = record {
  client_msg_id = req.client_msg_id;
  recv_id = req.recv_id;
  group_id = req.group_id;
  session_type = req.session_type;
  msg_type = req.msg_type;
  content = wire_content_to_entity_content req.content;
}

unfoldable pub send_msg_resp : Message → SendMsgResp
send_msg_resp msg = record {
  server_msg_id = msg.id;
  conversation_id = msg.conversation_id;
  seq = msg.seq;
  client_msg_id = msg.client_msg_id;
  send_at = msg.send_at;
}
