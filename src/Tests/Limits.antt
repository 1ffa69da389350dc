-- ===== src/Tests/Limits.antt =====
-- Handshakes at a server that takes one connection.
use nexo_im.Base.{◌+◌, ◌-◌, pos, ◌+ℤ◌, ◌≤ℤ◌, codes, ◌≡◌, refl, true, none, some, [], ◌∷◌, arith}
use nexo_im.Errors.{ok}
use nexo_im.Strconv.{parse_int}
use nexo_im.Token.Jwt.{Jwt, Claims, parse_token_with_fallback, parse_token}
use nexo_im.Gateway.UserMap.{Client}
use nexo_im.Gateway.Hub.{registers, handle}
use nexo_im.Gateway.Connect.{Query, connected, handle_connection, platform_of}
use nexo_im.Gateway.Serving.{
  Server, new_ws_server, waiting, accepts, sends, takes_registered, Reaches, starts, steps,
}
use nexo_im.Gateway.Serving.Limit.{reached_limit}
use nexo_im.Gateway.Serving.Overshoot.{overshoot}
use nexo_im.Tests.Data.{ann}
use nexo_im.Tests.Identities.{config}

abbrev claims : Claims
claims = record {
  user_id = ann;
  platform_id = pos 1;
  registered = record { expires_at = pos 0; issued_at = pos 0; not_before = pos 0; issuer = [] };
}

-- Every token is one of ann's.
abbrev jwt : Jwt
jwt = record {
  numeric_date = λ n. n;
  sign = λ c secret. ok (codes "t1");
  parse = λ token secret now. some claims;
  parse_external = λ token secret now. none;
}

abbrev query : Query
query = record { token = codes "t1"; send_id = ann; platform_id = codes "5" }

token_parsed : parse_token_with_fallback jwt query.token (some config) (pos 0) ≡ ok claims
unfolding parse_token_with_fallback parse_token
token_parsed = refl

overshoot_example :
    (s : Server) × (Reaches jwt (some config) 2 (pos 1) s
      × (s.hub.online_conn_num ≡ pos (1 + (2 - 1))))
overshoot_example =
    overshoot jwt (some config) 2 1 (pos 0) query (codes "c1") claims refl refl token_parsed
      (omega arith) (omega arith)

abbrev tablet : Client
tablet = record { user_id = ann; platform_id = pos 5; conn_id = codes "c1" }

abbrev empty : Server
empty = new_ws_server (pos 1) true

tablet_accepted :
    handle_connection jwt (some config) (pos 0) empty.hub query (codes "c1") true ≡ connected tablet
unfolding handle_connection parse_token_with_fallback parse_token new_ws_server platform_of
    parse_int
tablet_accepted = refl

-- The tablet is accepted, sent and registered.
abbrev sent : Server
sent = record empty { register_chan = tablet ∷ [] }

abbrev full : Server
full = record empty { hub = handle empty.hub (registers tablet) }

tablet_registered : Reaches jwt (some config) 1 (pos 1) full
unfolding new_ws_server waiting
tablet_registered =
    steps
      (steps
        (steps (starts true) (accepts (pos 0) query (codes "c1") true tablet tablet_accepted)
          (omega arith))
        (sends [] tablet [] refl (omega arith)) (omega arith))
      (takes_registered {s = sent} tablet [] refl) (omega arith)

reached_limit_example : full.hub.online_conn_num ≤ℤ pos 1 +ℤ pos (1 - 1)
reached_limit_example = reached_limit jwt (some config) 1 (pos 1) (omega arith) tablet_registered
