-- ===== src/Gateway/Status.antt =====
-- internal/gateway/ws_server.go: who is online, and on which platforms.
use nexo_im.Base.{
  ℤ, pos, eqb_ℤ, Text, codes, Option, none, some, List, [], map, length, ltb, if◌then◌else◌,
}
use nexo_im.Gateway.UserMap.{Client, UserMap, get_all}

-- PlatformIdToName of pkg/constant/constant.go
unfoldable pub platform_id_to_name : ℤ → Text
platform_id_to_name p =
    if eqb_ℤ p (pos 1)
    then codes "iOS"
    else if eqb_ℤ p (pos 2)
    then codes "Android"
    else if eqb_ℤ p (pos 3)
    then codes "Windows"
    else if eqb_ℤ p (pos 4)
    then codes "macOS"
    else if eqb_ℤ p (pos 5)
    then codes "Web"
    else codes "Unknown"

pub record PlatformStatusDetail : Type 0 where
  pub platform_id : ℤ
  pub platform_name : Text
  pub conn_id : Text

pub record OnlineStatusResult : Type 0 where
  pub user_id : Text
  pub status : ℤ
  pub detail_platform_status : List PlatformStatusDetail

abbrev detail : Client → PlatformStatusDetail
detail c = record {
  platform_id = c.platform_id;
  platform_name = platform_id_to_name c.platform_id;
  conn_id = c.conn_id;
}

abbrev status_of : Text → Option (List Client) → OnlineStatusResult
status_of u none = record { user_id = u; status = pos 0; detail_platform_status = [] }
status_of u (some cs) =
    if ltb 0 (length cs)
    then record { user_id = u; status = pos 1; detail_platform_status = map detail cs }
    else record { user_id = u; status = pos 0; detail_platform_status = [] }

unfoldable pub get_users_online_status : UserMap → List Text → List OnlineStatusResult
get_users_online_status m user_ids = map (λ u. status_of u (get_all m u)) user_ids
