-- ===== src/Gateway/Serving/Limit.antt =====
-- How far the number of connections of internal/gateway/ws_server.go can go above its limit.
use nexo_im.Base.{
  ◌-◌, ℕ, ◌≤◌, ℤ, pos, ◌≤ℤ◌, ◌+ℤ◌, ◌-ℤ◌, leb_ℤ, ◌≡◌, Text, Bool, false, Option, [], ◌∷◌,
  length-append, arith,
}
use nexo_im.Config.{Config}
use nexo_im.Token.Jwt.{Jwt}
use nexo_im.Gateway.UserMap.{Client}
use nexo_im.Gateway.Hub.{Hub, handle, register_client, unregister_client}
use nexo_im.Gateway.Connect.{Query, connected, handle_connection}
use nexo_im.Gateway.Serving.{
  Server, new_ws_server, waiting, Step, accepts, sends, leaves, takes_registered,
  takes_unregistered, Reaches, starts, steps,
}

-- A handshake is accepted only below the limit.
pub accepted_below :
    (j : Jwt) (cfg : Option Config) (now : ℤ) (h : Hub) (q : Query) (conn_id : Text)
    (upgraded : Bool) (c : Client)
    → handle_connection j cfg now h q conn_id upgraded ≡ connected c
    → leb_ℤ h.max_conn_num h.online_conn_num ≡ false
unfolding handle_connection
accepted_below j cfg now h q conn_id upgraded c e = ground arith

-- The connections and the accepted clients that wait are less than k above the limit.
abbrev IsLimited : ℕ → ℤ → Server → Type 0
IsLimited k max s =
    (s.hub.max_conn_num ≡ max) × (s.hub.online_conn_num +ℤ pos (waiting s) ≤ℤ max +ℤ pos (k - 1))

step-IsLimited :
    (j : Jwt) (cfg : Option Config) (k : ℕ) (max : ℤ) {s t : Server}
    → IsLimited k max s
    → Step j cfg s t
    → waiting t ≤ k
    → IsLimited k max t
unfolding waiting handle register_client unregister_client ◌+ℤ◌ ◌-ℤ◌
step-IsLimited j cfg k max v (accepts {s} now q conn_id upgraded c e) few = ground (
  arith,
  length-append {0} s.entering (c ∷ []),
  accepted_below j cfg now s.hub q conn_id upgraded c e,
)
step-IsLimited j cfg k max v (sends {s} before c after e room) few = ground (
  arith,
  length-append {0} s.register_chan (c ∷ []),
  length-append {0} before after,
  length-append {0} before (c ∷ after),
)
step-IsLimited j cfg k max v (leaves c) few = v
step-IsLimited j cfg k max v (takes_registered {s} c rest e) few = ground arith
step-IsLimited j cfg k max v (takes_unregistered {s} c rest e) few = ground arith

reached-IsLimited :
    (j : Jwt) (cfg : Option Config) (k : ℕ) (max : ℤ) {s : Server}
    → pos 0 ≤ℤ max
    → Reaches j cfg k max s
    → IsLimited k max s
unfolding new_ws_server waiting ◌+ℤ◌
reached-IsLimited j cfg k max h (starts rdb) = ground arith
reached-IsLimited j cfg k max h (steps r st few) =
    step-IsLimited j cfg k max (reached-IsLimited j cfg k max h r) st few

-- Whatever handshakes, the event loop and clients that leave do, in any order: where the limit is not
-- negative and never more than k accepted clients wait to be registered, the number of connections
-- is less than k above the limit, and not above it where k is 0.
pub reached_limit :
    (j : Jwt) (cfg : Option Config) (k : ℕ) (max_conn_num : ℤ) {s : Server}
    → pos 0 ≤ℤ max_conn_num
    → Reaches j cfg k max_conn_num s
    → s.hub.online_conn_num ≤ℤ max_conn_num +ℤ pos (k - 1)
unfolding ◌+ℤ◌
reached_limit j cfg k max_conn_num {s} h r =
    ground (arith, reached-IsLimited j cfg k max_conn_num h r)
