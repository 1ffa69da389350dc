-- ===== src/Gateway/Connect.antt =====
-- internal/gateway/ws_server.go: the handshake, and the channel through which a client goes again.
use nexo_im.Base.{
  not, codes, ◌=ₜ◌, ℤ, leb_ℤ, Text, is_empty, Bool, true, false, ◌||◌, Option, List, [], ◌∷◌, ◌++◌,
  length, ltb, if◌then◌else◌,
}
use nexo_im.Strings.{equal_fold, trim_space}
use nexo_im.Strconv.{parse_int}
use nexo_im.Errors.{Result, ok, err}
use nexo_im.Config.{Config}
use nexo_im.Token.Jwt.{Jwt, Claims, parse_token_with_fallback}
use nexo_im.Gateway.UserMap.{Client}
use nexo_im.Gateway.Hub.{Hub}

-- The parameters of the request.
pub record Query : Type 0 where
  pub token : Text
  pub send_id : Text
  pub platform_id : Text

pub data Handshake : Type 0 where
  -- 503, 400 and 401
  over_limit missing_parameters not_authorized : Handshake
  -- upgraded, and sent to `registerChan`
  connected : Client → Handshake
  -- `Upgrade` fails, and has answered
  not_upgraded : Handshake

abbrev number_or : ℤ → ℤ × Bool → ℤ
number_or default (n, true) = n
number_or default (n, false) = default

-- A platform in the query that is a number takes the place of the token's.
unfoldable pub platform_of : Text → ℤ → ℤ
platform_of platform_id_str claimed =
    if is_empty platform_id_str then claimed else number_or claimed (parse_int platform_id_str)

-- `upgraded` is what `Upgrade` of gorilla/websocket answers.
abbrev client_of : Query → Text → Bool → Result Claims → Handshake
client_of q conn_id upgraded (err f) = not_authorized
client_of q conn_id false (ok claims) = not_upgraded
client_of q conn_id true (ok claims) = connected (record {
  user_id = claims.user_id;
  platform_id = platform_of q.platform_id claims.platform_id;
  conn_id = conn_id;
})

-- `conn_id` is the new uuid.
unfoldable pub handle_connection : Jwt → Option Config → ℤ → Hub → Query → Text → Bool → Handshake
handle_connection j cfg now h q conn_id upgraded =
    if leb_ℤ h.max_conn_num h.online_conn_num
    then over_limit
    else if is_empty q.token || is_empty q.send_id
    then missing_parameters
    else client_of q conn_id upgraded (parse_token_with_fallback j q.token cfg now)

-- `UnregisterClient`: a client that does not fit into the channel of 1000 is forgotten.
unfoldable pub unregister_later : Client → List Client → List Client
unregister_later client waiting =
    if ltb (length waiting) 1000 then waiting ++ client ∷ [] else waiting

-- `CheckOrigin` of the upgrader, of the header Origin. A request without one is let in.
abbrev is_origin : Text → Text → Bool
is_origin origin o = o =ₜ codes "*" || equal_fold o origin

any_origin : Text → List Text → Bool
any_origin origin [] = false
any_origin origin (o ∷ allowed) = is_origin origin o || any_origin origin allowed

unfoldable pub check_origin : List Text → Text → Bool
unfolding any_origin
check_origin allowed origin = is_empty origin || any_origin origin allowed

-- The trace id of a connection: that of the context, of the header, or of the query.
unfoldable pub connection_trace_id : Text → Text → Text → Text
connection_trace_id of_context header query =
    if not (is_empty of_context)
    then of_context
    else if not (is_empty (trim_space header))
    then trim_space header
    else trim_space query
