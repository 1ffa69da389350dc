-- ===== src/Gateway/Client/Reading.antt =====
-- internal/gateway/client.go: the read loop of a client, over what arrives. A panic is not modelled.
use nexo_im.Base.{Text, Option, none, some, List, [], ◌∷◌, if◌then◌else◌, ℕ}
use nexo_im.Errors.{Failure}
use nexo_im.Backend.{Backend}
use nexo_im.Gateway.UserMap
use nexo_im.Gateway.Wire.{Json}
use nexo_im.Gateway.Connect.{unregister_later}
use nexo_im.Gateway.Client.{Peer, SendError, close, kick_online, handle_message}

-- A message, an error of the connection, or a kick from elsewhere while the loop waits.
pub data Arrival : Type 0 where
  message : Text → Arrival
  read_error kick : Arrival

-- `closedErr`
pub data ClosedError : Type 0 where
  read_failed conn_closed : ClosedError
  handling : SendError → ClosedError

-- The loop still waits, or it has ended: closed, with the clients that wait to be unregistered.
pub data Reading (W : Type 0) : Type 0 where
  waiting : Peer W → Reading W
  ended : ClosedError → Peer W → List UserMap.Client → Reading W

module _ (json : Json) (b : Backend) (capacity : ℕ) (error_text : Failure → Text)
    (channel : List UserMap.Client) where
  -- The deferred call: `Close`, then `UnregisterClient`.
  unfoldable pub end_reading : ClosedError → Peer b.World → Reading b.World
  end_reading reason p =
      ended reason (record p { session = close json p.session })
        (unregister_later p.session.client channel)

  abbrev continued :
      (Peer b.World → Reading b.World) → Option SendError × Peer b.World → Reading b.World
  continued rest (none, p) = rest p
  continued rest (some e, p) = end_reading (handling e) p

  unfoldable pub read_loop : List Arrival → Peer b.World → Reading b.World
  unfolding end_reading
  read_loop [] p = waiting p
  read_loop (read_error ∷ arrivals) p = end_reading read_failed p
  read_loop (kick ∷ arrivals) p =
      read_loop arrivals (record p { session = kick_online json p.session })
  read_loop (message m ∷ arrivals) p =
      let rest = λ (q : Peer b.World). read_loop arrivals q in
      if p.session.closed
      then end_reading conn_closed p
      else continued rest (handle_message json b capacity error_text m p)
