-- ===== src/Gateway/Serving.antt =====
-- internal/gateway/ws_server.go: handshakes and the event loop side by side, over the two channels between
-- them. A handshake reads the counter first, and sends its client to `registerChan` later.
pub mod Limit
pub mod Overshoot
use nexo_im.Base.{
  ℕ, ◌+◌, ◌≤◌, ◌<◌, ℤ, leb_ℤ, if◌then◌else◌, pos, ◌≡◌, Text, Bool, Option, List, [], ◌∷◌, ◌++◌,
  length,
}
use nexo_im.Config.{Config}
use nexo_im.Token.Jwt.{Jwt}
use nexo_im.Gateway.UserMap.{Client}
use nexo_im.Gateway.Hub.{Hub, registers, unregisters, handle}
use nexo_im.Gateway.Connect.{Query, connected, handle_connection, unregister_later}

-- `entering` are the clients whose handshake was accepted and that are not in `registerChan` yet.
pub record Server : Type 0 where
  pub hub : Hub
  pub entering : List Client
  pub register_chan : List Client
  pub unregister_chan : List Client

-- `make(chan *Client, 1000)`
abbrev pub register_chan_size : ℕ
register_chan_size = 1000

unfoldable pub new_ws_server : ℤ → Bool → Server
new_ws_server max_conn_num rdb = record {
  hub = record {
    user_map = record { users = []; rdb = rdb };
    online_user_num = pos 0;
    online_conn_num = pos 0;
    max_conn_num = max_conn_num;
  };
  entering = [];
  register_chan = [];
  unregister_chan = [];
}

-- How many push loops `Run` starts.
unfoldable pub worker_num : ℤ → ℤ
worker_num push_worker_num = if leb_ℤ push_worker_num (pos 0) then pos 10 else push_worker_num

-- The accepted clients that the event loop has not registered.
unfoldable pub waiting : Server → ℕ
waiting s = length s.entering + length s.register_chan

module _ (j : Jwt) (cfg : Option Config) where
  pub data Step : Server → Server → Type 0 where
    -- HandleConnection, up to the send
    accepts :
        {s : Server} (now : ℤ) (q : Query) (conn_id : Text) (upgraded : Bool) (c : Client)
        → handle_connection j cfg now s.hub q conn_id upgraded ≡ connected c
        → Step s (record s { entering = s.entering ++ c ∷ [] })
    -- `s.registerChan <- client` waits for room
    sends :
        {s : Server} (before : List Client) (c : Client) (after : List Client)
        → s.entering ≡ before ++ c ∷ after
        → length s.register_chan < register_chan_size
        → Step s
            (record s { entering = before ++ after; register_chan = s.register_chan ++ c ∷ [] })
    -- UnregisterClient
    leaves :
        {s : Server} (c : Client)
        → Step s (record s { unregister_chan = unregister_later c s.unregister_chan })
    -- The event loop takes from one channel or the other.
    takes_registered :
        {s : Server} (c : Client) (rest : List Client)
        → s.register_chan ≡ c ∷ rest
        → Step s (record s { hub = handle s.hub (registers c); register_chan = rest })
    takes_unregistered :
        {s : Server} (c : Client) (rest : List Client)
        → s.unregister_chan ≡ c ∷ rest
        → Step s (record s { hub = handle s.hub (unregisters c); unregister_chan = rest })

  -- What a server may come to, where never more than k accepted clients wait.
  pub data Reaches (k : ℕ) (max_conn_num : ℤ) : Server → Type 0 where
    starts : (rdb : Bool) → Reaches k max_conn_num (new_ws_server max_conn_num rdb)
    steps :
        {s t : Server}
        → Reaches k max_conn_num s
        → Step s t
        → waiting t ≤ k
        → Reaches k max_conn_num t
