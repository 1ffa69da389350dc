-- ===== src/Gateway/Client/Life.antt =====
-- internal/gateway/client.go and client_conn.go together: the read loop, the pushes, a kick and the end
-- of a client, with the write loop of its connection, each in steps that come in any order.
pub mod Answers
use nexo_im.Base.{ℕ, Text, Bool, true, false, Option, none, some, List, [], ◌∷◌, ◌++◌, ◌≡◌}
use nexo_im.Errors.{Failure}
use nexo_im.Backend.{Backend}
use nexo_im.Gateway.UserMap
use nexo_im.Gateway.Conn.{Conn, new_conn, LoopStep, close_channel, signal}
use nexo_im.Gateway.Wire.{Json, MessageData}
use nexo_im.Gateway.Handlers.{Node}
use nexo_im.Gateway.Client.{
  Session, Peer, push_message, write_response, handle_message, kick_response,
}

-- What a client had to write something for, oldest first.
pub data Cause : Type 0 where
  request : Text → Cause
  push : MessageData → Cause
  kick : Cause

abbrev pub with_conn : {W : Type 0} → Conn → Peer W → Peer W
with_conn c p = record p { session = record p.session { conn = c } }

abbrev pub with_session : {W : Type 0} → Session → Peer W → Peer W
with_session s p = record p { session = s }

module _ (json : Json) (b : Backend) (capacity : ℕ) (error_text : Failure → Text) where
  pub data Life : List Cause → Peer b.World → Type 0 where
    -- NewClient on a new connection
    starts :
        (client : UserMap.Client) (n : Node b.World)
        → Life [] (record {
          session = record { client = client; closed = false; conn = new_conn };
          node = n;
        })
    receives :
        {causes : List Cause} {p : Peer b.World} (m : Text)
        → Life causes p
        → Life (causes ++ request m ∷ []) (handle_message json b capacity error_text m p).1
    pushes :
        {causes : List Cause} {p : Peer b.World} (msg : MessageData)
        → Life causes p
        → Life (causes ++ push msg ∷ []) (with_session (push_message json msg p.session).1 p)
    -- The first half of KickOnline; `Close` is the second.
    kicks :
        {causes : List Cause} {p : Peer b.World}
        → Life causes p
        → Life
            (causes ++ kick ∷ [])
            (with_session (write_response json kick_response p.session).1 p)
    -- Close, which runs once, up to the close of the write channel, and its end
    closes :
        {causes : List Cause} {p : Peer b.World}
        → Life causes p
        → Life causes (
            with_session
              (record p.session { closed = true; conn = close_channel p.session.conn })
              p)
    signals :
        {causes : List Cause} {p : Peer b.World}
        → Life causes p
        → p.session.conn.closed ≡ true
        → Life causes (with_conn (signal p.session.conn) p)
    -- A round of the write loop
    loops :
        {causes : List Cause} {p : Peer b.World} {c : Conn}
        → Life causes p
        → LoopStep p.session.conn c
        → Life causes (with_conn c p)
