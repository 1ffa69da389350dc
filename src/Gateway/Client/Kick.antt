-- ===== src/Gateway/Client/Kick.antt =====
-- What becomes of the message with which internal/gateway/client.go kicks a client.
use nexo_im.Base.{Text, true, false, some, ◌<◌, length, ◌≡◌, refl, arith, [], ◌∷◌, ◌++◌}
use nexo_im.Gateway.Conn.{
  Conn, Frame, LoopStep, stops, sends, send_fails, says_goodbye, goodbye_fails, pings, ping_fails,
  write_channel_size, write_message, close_channel, signal,
}
use nexo_im.Gateway.Conn
use nexo_im.Gateway.Wire.{Json}
use nexo_im.Gateway.Client.{Session, write_response, kick_response, close, kick_online}

-- Rounds of the write loop.
pub data Rounds (c : Conn) : Conn → Type 0 where
  here : Rounds c c
  next : {d e : Conn} → Rounds c d → LoopStep d e → Rounds c e

stays :
    {c d : Conn} → c.running ≡ false → Rounds c d → (d.running ≡ false) × (d.written ≡ c.written)
stays off here = (off, refl)
stays off (next r (sends m ms on q)) = ground (arith, stays off r)
stays off (next r (send_fails m ms on q)) = ground (arith, stays off r)
stays off (next r (says_goodbye on cl q)) = ground (arith, stays off r)
stays off (next r (goodbye_fails on cl q)) = ground (arith, stays off r)
stays off (next r (pings on)) = ground (arith, stays off r)
stays off (next r (ping_fails on)) = ground (arith, stays off r)
stays off (next r (stops on s)) = ground (arith, stays off r)

-- On an open client whose connection is open, with room in the queue and a running write loop, the
-- message that KickOnline queues may be lost: the loop may take the signal of the end first, and from
-- then on nothing more is ever written.
pub kick_online-lost :
    (json : Json) (s : Session) (m : Text)
    → json.encode_response kick_response ≡ some m
    → s.closed ≡ false
    → s.conn.closed ≡ false
    → s.conn.running ≡ true
    → length s.conn.queue < write_channel_size
    → let kicked = (kick_online json s).conn in
      (kicked.queue ≡ s.conn.queue ++ m ∷ [])
      × ((c : Conn) × LoopStep kicked c × ((d : Conn) → Rounds c d → d.written ≡ s.conn.written))
unfolding kick_online write_response write_message Conn.close close close_channel signal
kick_online-lost json s m e open_client open_conn on room =
    let kicked = (kick_online json s).conn in
    (
      ground (arith, e),
      (
        record kicked { running = false },
        stops (ground arith) (ground arith),
        λ d r. ground (arith, stays refl r),
      ),
    )
