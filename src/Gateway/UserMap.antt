-- ===== src/Gateway/UserMap.antt =====
-- internal/gateway/user_map.go: the connections of each user. The mutex makes each method one step.
-- A Go map is the list of its entries; no method depends on their order but the list of user ids.
pub mod Lookup
pub mod Counts
use nexo_im.Base.{
  ℕ, ◌+◌, ℤ, eqb_ℤ, Text, ◌=ₜ◌, not, Bool, true, false, ◌&&◌, ◌||◌, Option, none, some, is_some,
  List, [], ◌∷◌, ◌++◌, if◌then◌else◌, map, find, select, upsert, length, ltb,
}

pub record Client : Type 0 where
  pub user_id : Text
  pub platform_id : ℤ
  pub conn_id : Text

-- An entry of `users`: the user id, and the clients of its `UserPlatform`.
pub record Entry : Type 0 where
  pub user_id : Text
  pub clients : List Client

-- What is written to Redis: the key of a user is set for a minute, or deleted.
pub data Presence : Type 0 where
  set_online set_offline : Text → Presence

-- `rdb` tells whether a Redis client is set.
pub record UserMap : Type 0 where
  pub users : List Entry
  pub rdb : Bool

abbrev pub of_user : Text → Entry → Bool
of_user u e = e.user_id =ₜ u

-- `delete(m.users, id)`
unfoldable pub delete : Text → List Entry → List Entry
delete u [] = []
delete u (e ∷ es) = if of_user u e then es else e ∷ delete u es

-- `userPlatform.Clients = clients`, for the entry of a user that is there
unfoldable pub set_clients : Text → List Client → List Entry → List Entry
set_clients u cs [] = []
set_clients u cs (e ∷ es) =
    if of_user u e then record e { clients = cs } ∷ es else e ∷ set_clients u cs es

abbrev presence : UserMap → Presence → List Presence
presence m p = if m.rdb then p ∷ [] else []

unfoldable pub register : UserMap → Client → UserMap × List Presence
register m client = (
  record m {
    users =
        upsert (of_user client.user_id) (λ e. record e { clients = e.clients ++ client ∷ [] })
          (record { user_id = client.user_id; clients = client ∷ [] }) m.users;
  },
  presence m (set_online client.user_id),
)

-- The clients that stay when a connection goes.
unfoldable pub without : Text → List Client → List Client
without conn_id cs = select (λ c. not (c.conn_id =ₜ conn_id)) cs

abbrev stored_or_deleted : UserMap → Text → List Client → UserMap × Bool × List Presence
stored_or_deleted m user_id [] =
    (record m { users = delete user_id m.users }, true, presence m (set_offline user_id))
stored_or_deleted m user_id (c ∷ cs) =
    (record m { users = set_clients user_id (c ∷ cs) m.users }, false, [])

abbrev unregister_from : UserMap → Client → Option Entry → UserMap × Bool × List Presence
unregister_from m client none = (m, false, [])
unregister_from m client (some e) =
    stored_or_deleted m client.user_id (without client.conn_id e.clients)

-- The answer tells whether the user has no connection left.
unfoldable pub unregister : UserMap → Client → UserMap × Bool × List Presence
unregister m client = unregister_from m client (find (of_user client.user_id) m.users)

abbrev pub clients_of : Option Entry → Option (List Client)
clients_of none = none
clients_of (some e) = some e.clients

unfoldable pub get_all : UserMap → Text → Option (List Client)
get_all m user_id = clients_of (find (of_user user_id) m.users)

abbrev on_platform : ℤ → Option (List Client) → List Client × Bool
on_platform platform_id none = ([], false)
on_platform platform_id (some cs) =
    let found = select (λ c. eqb_ℤ c.platform_id platform_id) cs in (found, ltb 0 (length found))

unfoldable pub get_by_platform : UserMap → Text → ℤ → List Client × Bool
unfolding get_all
get_by_platform m user_id platform_id = on_platform platform_id (get_all m user_id)

abbrev some_client : Option (List Client) → Bool
some_client none = false
some_client (some cs) = ltb 0 (length cs)

unfoldable pub has_connection : UserMap → Text → Bool
unfolding get_all
has_connection m user_id = some_client (get_all m user_id)

unfoldable pub get_online_user_count : UserMap → ℕ
get_online_user_count m = length m.users

abbrev pub total : List Entry → ℕ
total [] = 0
total (e ∷ es) = length e.clients + total es

unfoldable pub get_online_conn_count : UserMap → ℕ
get_online_conn_count m = total m.users

-- `key_exists` is what Redis says of the user's key; an error counts as "no".
unfoldable pub is_online : UserMap → (Text → Bool) → Text → Bool
is_online m key_exists user_id = has_connection m user_id || (m.rdb && key_exists user_id)

unfoldable pub refresh_online_status : UserMap → Text → List Presence
refresh_online_status m user_id =
    if m.rdb && has_connection m user_id then set_online user_id ∷ [] else []

unfoldable pub get_all_online_user_ids : UserMap → List Text
get_all_online_user_ids m = map (λ e. e.user_id) m.users
