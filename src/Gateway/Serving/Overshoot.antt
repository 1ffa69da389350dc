-- ===== src/Gateway/Serving/Overshoot.antt =====
-- That the limit on connections of internal/gateway/ws_server.go can be passed, and by how much.
use nexo_im.Base.{
  leb_ℤ, ℤ, suc, ℕ, zero, suc, ◌+◌, ◌-◌, ◌≤◌, ◌<◌, pos, ◌+ℤ◌, ◌≡◌, refl, is_empty, Text, true,
  false, Option, List, [], ◌∷◌, ◌++◌, length, length-append, arith,
}
use nexo_im.Errors.{ok}
use nexo_im.Config.{Config}
use nexo_im.Token.Jwt.{Jwt, Claims, parse_token_with_fallback}
use nexo_im.Gateway.UserMap.{Client}
use nexo_im.Gateway.Hub.{Hub, registers, handle, register_client}
use nexo_im.Gateway.Connect.{Query, connected, handle_connection, platform_of}
use nexo_im.Gateway.Serving.{
  Server, new_ws_server, waiting, accepts, sends, takes_registered, Reaches, starts, steps,
  register_chan_size,
}

-- A server with n connections, where w accepted clients wait for room in the channel.
pub record Reached (j : Jwt) (cfg : Option Config) (k max n w : ℕ) : Type 0 where
  pub server : Server
  pub reaches : Reaches j cfg k (pos max) server
  pub limit : server.hub.max_conn_num ≡ pos max
  pub online : server.hub.online_conn_num ≡ pos n
  pub idle : server.register_chan ≡ []
  pub entered : length server.entering ≡ w

first_of {ℓ} :
    {A : Type ℓ} {w : ℕ} (xs : List A)
    → length xs ≡ suc w
    → (x : A) × ((rest : List A) × ((xs ≡ x ∷ rest) × (length rest ≡ w)))
first_of [] h = absurd (omega (arith, h))
first_of (x ∷ rest) h = (x, (rest, (refl, omega (arith, h))))

module _ (j : Jwt) (cfg : Option Config) (k max : ℕ) where
  start : Reached j cfg k max 0 0
  unfolding new_ws_server
  start = record {
    server = new_ws_server (pos max) true;
    reaches = starts true;
    limit = refl;
    online = refl;
    idle = refl;
    entered = refl;
  }

  registered : {n w : ℕ} → w < k → Reached j cfg k max n (suc w) → Reached j cfg k max (suc n) w
  unfolding waiting handle register_client ◌+ℤ◌
  registered {n} {w} few r =
      let s = r.server in
      let (c, (rest, (e, l))) = first_of s.entering r.entered in
      let room : length s.register_chan < register_chan_size = ground (arith, r.idle) in
      let sent = record s { entering = rest; register_chan = s.register_chan ++ c ∷ [] } in
      record {
        server = record sent { hub = handle s.hub (registers c); register_chan = [] };
        reaches =
            steps (steps r.reaches (sends [] c rest e room) (ground (arith, r.idle, l)))
              (takes_registered c [] (ground (arith, r.idle))) (ground (arith, l));
        limit = r.limit;
        online = ground (arith, r.online);
        idle = refl;
        entered = l;
      }

  module _ (now : ℤ) (q : Query) (conn_id : Text) (claims : Claims)
      (token : is_empty q.token ≡ false) (send_id : is_empty q.send_id ≡ false)
      (parsed : parse_token_with_fallback j q.token cfg now ≡ ok claims) where
    abbrev client : Client
    client = record {
      user_id = claims.user_id;
      platform_id = platform_of q.platform_id claims.platform_id;
      conn_id = conn_id;
    }

    accepted :
        (h : Hub)
        → leb_ℤ h.max_conn_num h.online_conn_num ≡ false
        → handle_connection j cfg now h q conn_id true ≡ connected client
    unfolding handle_connection
    accepted h below = ground (arith, parsed)

    entered : {n w : ℕ} → n < max → w < k → Reached j cfg k max n w → Reached j cfg k max n (suc w)
    unfolding waiting
    entered {n} {w} below few r =
        let s = r.server in
        let more : length (s.entering ++ client ∷ []) ≡ suc w =
          omega (arith, length-append {0} s.entering (client ∷ []), r.entered) in
        record {
          server = record s { entering = s.entering ++ client ∷ [] };
          reaches =
              steps r.reaches
                (accepts now q conn_id true client
                  (accepted s.hub (ground (arith, r.limit, r.online))))
                (ground (arith, more, r.idle));
          limit = r.limit;
          online = r.online;
          idle = r.idle;
          entered = more;
        }

    -- One client after the other, up to the limit.
    filled : (n : ℕ) → n ≤ max → 1 ≤ k → Reached j cfg k max n 0
    filled zero below some_wait = start
    filled (suc n) below some_wait =
        registered (omega arith)
          (entered (omega arith) (omega arith) (filled n (omega arith) some_wait))

    crowded : (n w : ℕ) → n < max → 1 ≤ k → w ≤ k → Reached j cfg k max n w
    crowded n zero below some_wait few = filled n (omega arith) some_wait
    crowded n (suc w) below some_wait few =
        entered below (omega arith) (crowded n w below some_wait (omega arith))

    all_registered :
        {n : ℕ} (w : ℕ)
        → w ≤ k
        → Reached j cfg k max n w
        → (s : Server) × (Reaches j cfg k (pos max) s × (s.hub.online_conn_num ≡ pos (n + w)))
    all_registered zero few r = (r.server, (r.reaches, ground (arith, r.online)))
    all_registered {n} (suc w) few r =
        let (s, (reaches, online)) = all_registered w (omega arith) (registered (omega arith) r) in
        (s, (reaches, ground (arith, online)))

    -- Given a request whose token parses and that names a sender: where the limit and k are at least 1
    -- and up to k accepted clients may wait to be registered, a server can come to have k - 1
    -- connections more than the limit.
    pub overshoot :
        1 ≤ max
        → 1 ≤ k
        → (s : Server) × (Reaches j cfg k (pos max) s
            × (s.hub.online_conn_num ≡ pos (max + (k - 1))))
    overshoot some_limit some_wait =
        let (s, (reaches, online)) =
          all_registered k (omega arith)
            (crowded (max - 1) k (omega arith) some_wait (omega arith)) in
        (s, (reaches, ground (arith, online)))
