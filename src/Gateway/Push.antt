-- ===== src/Gateway/Push.antt =====
-- internal/gateway/ws_server.go: the queue of push tasks, and to whom a task is delivered. Errors of a
-- single delivery are only logged there, so the attempts are what is listed; how an app push is built
-- is not modelled.
pub mod Targets
use nexo_im.Base.{
  ℕ, Text, ◌=ₜ◌, not, Bool, true, false, ◌&&◌, ◌||◌, Option, none, some, List, [], ◌∷◌, ◌++◌,
  if◌then◌else◌, map, select, ltb, length,
}
use nexo_im.Entity.Message.{Message}
use nexo_im.Gateway.UserMap.{Client, UserMap, get_all, is_online}

pub record PushTask : Type 0 where
  pub msg : Option Message
  pub target_ids : List Text
  pub exclude_id : Text

pub data Delivery : Type 0 where
  -- `client.PushMessage`, for a client listed under a user
  to_client : Text → Client → Message → Delivery
  -- `pushToAppIfNeeded`
  to_app : Text → Message → Delivery

unfoldable pub contains : Text → List Text → Bool
contains u [] = false
contains u (v ∷ vs) = v =ₜ u || contains u vs

abbrev is_excluded : Text → Client → Bool
is_excluded exclude_id c = not (exclude_id =ₜ []) && (c.conn_id =ₜ exclude_id)

abbrev to_clients : Text → Text → Message → Option (List Client) → List Delivery
to_clients exclude_id u msg none = []
to_clients exclude_id u msg (some cs) =
    map (λ c. to_client u c msg) (select (λ c. not (is_excluded exclude_id c)) cs)

-- The body of the loop, for a user that was not seen before.
unfoldable pub push_to_user : UserMap → (Text → Bool) → Text → Message → Text → List Delivery
push_to_user m key_exists exclude_id msg u =
    to_clients exclude_id u msg (get_all m u)
    ++ (if is_online m key_exists u then [] else to_app u msg ∷ [])

-- The loop over the targets, with the set of users seen.
unfoldable pub push_to_users :
    UserMap → (Text → Bool) → Text → Message → List Text → List Text → List Delivery
push_to_users m key_exists exclude_id msg seen [] = []
push_to_users m key_exists exclude_id msg seen (u ∷ us) =
    let skip = u =ₜ [] || contains u seen in
    let rest = push_to_users m key_exists exclude_id msg (if skip then seen else u ∷ seen) us in
    if skip then rest else push_to_user m key_exists exclude_id msg u ++ rest

abbrev push_message : UserMap → (Text → Bool) → PushTask → Option Message → List Delivery
push_message m key_exists task none = []
push_message m key_exists task (some msg) =
    push_to_users m key_exists task.exclude_id msg [] task.target_ids

unfoldable pub process_push_task : UserMap → (Text → Bool) → PushTask → List Delivery
process_push_task m key_exists task = push_message m key_exists task task.msg

-- `pushChan`: what waits in it, and its capacity. The answer tells whether the task was queued.
unfoldable pub async_push_to_users :
    ℕ → List PushTask → Message → List Text → Text → List PushTask × Bool
async_push_to_users capacity queue msg user_ids exclude_conn_id =
    if ltb (length queue) capacity
    then (
      queue ++ record { msg = some msg; target_ids = user_ids; exclude_id = exclude_conn_id } ∷ [],
      true,
    )
    else (queue, false)
