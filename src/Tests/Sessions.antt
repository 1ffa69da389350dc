-- ===== src/Tests/Sessions.antt =====
-- Runs of one client's connection and of the map of all connections.
use nexo_im.Base.{pos, Text, codes, false, true, none, some, [], ◌∷◌, ◌≡◌, refl, arith, find}
use nexo_im.Errors.{Failure}
use nexo_im.Backend.Memory.{memory, holding}
use nexo_im.Gateway.UserMap.{Client, get_all}
use nexo_im.Gateway.Hub.{Hub, registers, unregisters, event_loop}
use nexo_im.Gateway.Hub.Refines.{Listing, Implements, spec_run, offered, event_loop-Implements}
use nexo_im.Gateway.Conn.{Conn, new_conn, LoopStep}
use nexo_im.Gateway.Wire.{Json, WsRequest}
use nexo_im.Gateway.Client.{Session, Peer, kick_online, handle_message}
use nexo_im.Gateway.Client.Replies.{Answered, is_foreign, handle_message-Answered}
use nexo_im.Gateway.Client.Kick.{Rounds, kick_online-lost}
use nexo_im.Tests.Data.{ann, bob, two_users}

abbrev pub phone : Client
phone = record { user_id = bob; platform_id = pos 1; conn_id = codes "c1" }

abbrev tablet : Client
tablet = record { user_id = bob; platform_id = pos 2; conn_id = codes "c2" }

abbrev idle : Hub
idle = record {
  user_map = record { users = []; rdb = true };
  online_user_num = pos 0;
  online_conn_num = pos 0;
  max_conn_num = pos 10;
}

abbrev nobody : Listing
nobody u = []

idle-Implements : Implements idle.user_map nobody
unfolding find
idle-Implements = record { clean = tt; listed = λ u. refl }

event_loop-Implements_example :
    let es = registers phone ∷ (registers tablet ∷ (unregisters phone ∷ [])) in
    get_all (event_loop idle es).user_map bob ≡ offered (spec_run es nobody bob)
event_loop-Implements_example =
    event_loop-Implements idle nobody
      (registers phone ∷ (registers tablet ∷ (unregisters phone ∷ []))) bob idle-Implements

-- A codec that knows one request, of bob in ann's name.
abbrev pub bobs_request : WsRequest
bobs_request = record {
  req_identifier = pos 1003;
  msg_incr = codes "7";
  operation_id = codes "op";
  token = [];
  send_id = ann;
  payload = [];
}

abbrev pub json : Json
json = record {
  decode_request = λ t. (bobs_request, true);
  decode_send_msg = λ t. none;
  decode_pull_msg = λ t. none;
  decode_newest_seq = λ t. none;
  decode_max_read_seq = λ t. none;
  encode_response = λ r. some r.msg_incr;
  encode_send_msg = λ r. some [];
  encode_pull_msg = λ r. some [];
  encode_newest_seq = λ r. some [];
  encode_max_read_seq = λ r. some [];
  encode_push_msg = λ r. some [];
}

abbrev pub session : Session
session = record { client = phone; closed = false; conn = new_conn }

abbrev pub peer : Peer memory.World
peer = record { session = session; node = record { world = holding two_users; push_chan = [] } }

abbrev pub no_text : Failure → Text
no_text f = []

handle_message-Answered_example :
    let after = handle_message json memory 10 no_text (codes "x") peer in
    Answered json memory 10 no_text bobs_request session after
    × (true ≡ false → after.1.node ≡ peer.node)
    × (is_foreign json memory 10 no_text bobs_request session ≡ true → after.1.node ≡ peer.node)
handle_message-Answered_example = handle_message-Answered json memory 10 no_text (codes "x") peer

kick_online-lost_example :
    let kicked = (kick_online json session).conn in
    (kicked.queue ≡ [] ∷ [])
    × ((c : Conn) × LoopStep kicked c × ((d : Conn) → Rounds c d → d.written ≡ []))
kick_online-lost_example = kick_online-lost json session [] refl refl refl refl (omega arith)
