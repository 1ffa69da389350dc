-- ===== src/Tests/Identities.antt =====
-- Runs of the identities of actors and of calls from other services.
use nexo_im.Base.{
  pos, negsuc, Text, codes, ◌=ₜ◌, ◌≡◌, ◌⊎◌, ◌↔◌, inl, inr, refl, true, false, none, some, [], ◌∷◌,
  arith, if◌then◌else◌, ltb_ℤ, ◌&&◌,
}
use nexo_im.Strings.{trim_space, trim_left, trim_right, to_lower, equal_fold}
use nexo_im.Strconv.{parse_int, parse_uint, scan, format_int, format_nat, digits}
use nexo_im.Common.Identity.{Actor, role_user, role_agent, to_im_user_id, from_im_user_id}
use nexo_im.Common.Identity.RoundTrip.{from_im_user_id-to_im_user_id}
use nexo_im.Gateway.AppPush.{parse_user_id}
use nexo_im.Gateway.AppPush.UserIds.{parse_user_id-to_im_user_id}
use nexo_im.Config.{Config}
use nexo_im.Middleware.InternalAuth.{
  Request, accepted, is_service_allowed, sign_internal_request, trimmed, validate_internal_request,
}
use nexo_im.Middleware.InternalAuth.Skew.{
  Within, IsOpposite, IsComplete, validate_internal_request_iff,
}

abbrev agent : Actor
agent = record { id = negsuc 6; role = role_agent }

abbrev nobody : Actor
nobody = record { id = pos 0; role = [] }

from_im_user_id-to_im_user_id_example :
    (s : Text) × (to_im_user_id agent ≡ some s)
    × (from_im_user_id (some nobody) s ≡ (some agent, none))
from_im_user_id-to_im_user_id_example =
    from_im_user_id-to_im_user_id agent nobody (omega arith) (inr refl)

abbrev member : Actor
member = record { id = pos 42; role = role_user }

member_id : to_im_user_id member ≡ some (codes "u___42")
unfolding to_im_user_id ◌=ₜ◌ format_int format_nat digits
member_id = refl

parse_user_id-to_im_user_id_example :
    parse_user_id (codes "u___42")
    ≡ (if role_user =ₜ role_user && ltb_ℤ (pos 0) (pos 42) then some (pos 42) else none)
parse_user_id-to_im_user_id_example =
    parse_user_id-to_im_user_id member (codes "u___42") (omega arith) (inl refl) member_id

abbrev pub config : Config
config = record {
  server = record { http_port = pos 80; ws_port = pos 80; mode = []; allowed_origins = [] };
  mysql = record {
    host = [];
    port = pos 0;
    user = [];
    password = [];
    database = [];
    charset = [];
    max_open_conns = pos 0;
    max_idle_conns = pos 0;
  };
  redis = record {
    host = [];
    port = pos 0;
    password = [];
    db = pos 0;
    key_prefix = [];
    cluster = false;
    tls = false;
    addrs = [];
  };
  jwt = record { secret = codes "s"; expire_hours = pos 1 };
  external_jwt = record {
    enabled = false;
    secret = [];
    default_role = [];
    default_platform_id = pos 5;
  };
  internal_auth = record {
    enabled = true;
    secret = codes "s";
    allowed_services = codes "Shop" ∷ [];
    max_skew_seconds = pos 300;
  };
  web_socket = record {
    max_conn_num = pos 0;
    max_message_size = pos 0;
    write_wait = pos 0;
    pong_wait = pos 0;
    ping_period = pos 0;
    push_channel_size = pos 0;
    push_worker_num = pos 0;
    write_channel_size = pos 0;
  };
}

-- A call with the timestamp 1000 - 2^63.
abbrev header : Text → Text
header name =
    if name =ₜ codes "X-Service-Name"
    then codes "shop"
    else if name =ₜ codes "X-Timestamp"
    then codes "-9223372036854774808"
    else if name =ₜ codes "X-Signature"
    then codes "SIG"
    else []

abbrev request : Request
request = record { header = header; method = codes "GET"; path = codes "/"; body = [] }

complete : IsComplete (λ body. []) (λ secret content. codes "sig") config request
unfolding trim_space trim_left trim_right is_service_allowed equal_fold to_lower ◌=ₜ◌
complete = record {
  enabled = refl;
  secret = refl;
  service_named = refl;
  signed = refl;
  allowed = refl;
}

stamp_read : parse_int (trimmed request "X-Timestamp") ≡ (negsuc 9223372036854774807, true)
unfolding trim_space trim_left trim_right ◌=ₜ◌ parse_int parse_uint scan
stamp_read = refl

validate_internal_request_iff_example :
    (validate_internal_request
        (λ body. [])
        (λ secret content. codes "sig")
        (some config)
        (pos 1000)
        request
      ≡ accepted (trimmed request "X-Service-Name"))
    ↔ ((Within 300 1000 (negsuc 9223372036854774807) ⊎ IsOpposite 1000 (negsuc 9223372036854774807))
        × (to_lower (trimmed request "X-Signature")
            ≡ sign_internal_request
                (λ body. [])
                (λ secret content. codes "sig")
                (codes "s")
                (trimmed request "X-Service-Name")
                (trimmed request "X-Timestamp")
                (codes "GET")
                (codes "/")
                []))
validate_internal_request_iff_example =
    validate_internal_request_iff (λ body. []) (λ secret content. codes "sig") config request 1000
      300 (negsuc 9223372036854774807) complete stamp_read refl (omega arith) (omega arith)
