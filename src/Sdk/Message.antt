-- ===== src/Sdk/Message.antt =====
-- sdk/message.go
use nexo_im.Base.{ℤ, pos, ltb_ℤ, Text, codes, Option, List, [], ◌∷◌, ◌++◌, if◌then◌else◌}
use nexo_im.Strconv.{format_int}
use nexo_im.Sdk.Endpoints
use nexo_im.Sdk.Endpoints.{method_of, path_of}
use nexo_im.Sdk.Client.{Client, Context, RequestOption}
use nexo_im.Sdk.Client.Answers.{Platform, Call, Answer, answer, failed, read_over, call, get}
use nexo_im.Sdk.Types.{
  MessageInfo, SendMessageRequest, PullMessagesResponse, MaxSeqResponse, empty_content,
  zero_message, zero_pull_messages, zero_max_seq,
}

-- Parameters that are sent only where they are positive.
abbrev pub positive_param : Text → ℤ → List (Text × Text)
positive_param name n = if ltb_ℤ (pos 0) n then (name, format_int n) ∷ [] else []

-- The requests of the convenience methods.
unfoldable pub text_request : Text → Text → Text → SendMessageRequest
text_request client_msg_id recv_id text = record {
  client_msg_id = client_msg_id;
  recv_id = recv_id;
  group_id = [];
  session_type = pos 1;
  msg_type = pos 1;
  content = record empty_content { text = text };
}

unfoldable pub group_text_request : Text → Text → Text → SendMessageRequest
group_text_request client_msg_id group_id text = record {
  client_msg_id = client_msg_id;
  recv_id = [];
  group_id = group_id;
  session_type = pos 2;
  msg_type = pos 1;
  content = record empty_content { text = text };
}

module _ (p : Platform) (c : Client) (ctx : Context) where
  open p use {World}

  unfoldable pub send_message : SendMessageRequest → Call p MessageInfo
  send_message req =
      call p c ctx Endpoints.send (p.json.encode_send_message req)
        (read_over zero_message p.json.decode_message) []

  unfoldable pub internal_send_message :
      SendMessageRequest → List (Option RequestOption) → Call p MessageInfo
  internal_send_message req opts =
      call p c ctx Endpoints.internal_send (p.json.encode_send_message req)
        (read_over zero_message p.json.decode_message) opts

  unfoldable pub send_message_without_mark_read : SendMessageRequest → Call p MessageInfo
  send_message_without_mark_read req =
      call p c ctx Endpoints.send_without_mark_read (p.json.encode_send_message req)
        (read_over zero_message p.json.decode_message) []

  unfoldable pub internal_send_message_without_mark_read :
      SendMessageRequest → List (Option RequestOption) → Call p MessageInfo
  internal_send_message_without_mark_read req opts =
      call p c ctx Endpoints.internal_send_without_mark_read (p.json.encode_send_message req)
        (read_over zero_message p.json.decode_message) opts

  unfoldable pub send_text_message : Text → Text → Text → Call p MessageInfo
  send_text_message client_msg_id recv_id text =
      send_message (text_request client_msg_id recv_id text)

  unfoldable pub send_group_text_message : Text → Text → Text → Call p MessageInfo
  send_group_text_message client_msg_id group_id text =
      send_message (group_text_request client_msg_id group_id text)

  unfoldable pub send_text_message_without_mark_read : Text → Text → Text → Call p MessageInfo
  send_text_message_without_mark_read client_msg_id recv_id text =
      send_message_without_mark_read (text_request client_msg_id recv_id text)

  unfoldable pub send_group_text_message_without_mark_read : Text → Text → Text → Call p MessageInfo
  send_group_text_message_without_mark_read client_msg_id group_id text =
      send_message_without_mark_read (group_text_request client_msg_id group_id text)

  unfoldable pub pull_messages : Text → ℤ → ℤ → ℤ → Call p PullMessagesResponse
  pull_messages conversation_id begin_seq end_seq limit =
      get p c ctx (path_of Endpoints.pull)
        ((codes "conversation_id", conversation_id)
          ∷ (positive_param (codes "begin_seq") begin_seq
              ++ (positive_param (codes "end_seq") end_seq
                  ++ positive_param (codes "limit") limit)))
        (read_over zero_pull_messages p.json.decode_messages) []

  abbrev max_seq_of : Answer MaxSeqResponse × World → Answer ℤ × World
  max_seq_of (answer result, s) = (answer result.max_seq, s)
  max_seq_of (failed e, s) = (failed e, s)

  unfoldable pub get_max_seq : Text → Call p ℤ
  get_max_seq conversation_id s = max_seq_of (
      get p c ctx (path_of Endpoints.max_seq) ((codes "conversation_id", conversation_id) ∷ [])
        (read_over zero_max_seq p.json.decode_max_seq) [] s)
