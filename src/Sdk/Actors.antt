-- ===== src/Sdk/Actors.antt =====
-- sdk/actor.go: the ids of users and agents.
use nexo_im.Base.{ℤ, pos, Text, Option, none, some, List, [], ◌∷◌, map}
use nexo_im.Common.Identity.{
  Actor, IdentityError, role_user, role_agent, to_im_user_id, from_im_user_id,
}

-- The text of an id that is an error is empty.
abbrev id_or_empty : Option Text → Text
id_or_empty none = []
id_or_empty (some s) = s

unfoldable pub get_user_actor_user_id : ℤ → Text
get_user_actor_user_id user_id =
    id_or_empty (to_im_user_id (record { id = user_id; role = role_user }))

unfoldable pub get_agent_actor_user_id : ℤ → Text
get_agent_actor_user_id agent_id =
    id_or_empty (to_im_user_id (record { id = agent_id; role = role_agent }))

unfoldable pub m_get_user_actor_user_ids : List ℤ → List Text
m_get_user_actor_user_ids = map get_user_actor_user_id

unfoldable pub m_get_agent_actor_user_ids : List ℤ → List Text
m_get_agent_actor_user_ids = map get_agent_actor_user_id

-- The actor as the method leaves it, and the error.
unfoldable pub get_actor_from_user_id : Text → Option Actor × Option IdentityError
get_actor_from_user_id user_id = from_im_user_id (some (record { id = pos 0; role = [] })) user_id

abbrev consed : Option Actor × Option IdentityError → Option (List Actor) → Option (List Actor)
consed (some a, none) (some rest) = some (a ∷ rest)
consed (some a, none) none = none
consed (some a, some e) rest = none
consed (none, e) rest = none

-- `none` where one of the ids is an error.
unfoldable pub m_get_actor_from_user_ids : List Text → Option (List Actor)
unfolding get_actor_from_user_id
m_get_actor_from_user_ids [] = some []
m_get_actor_from_user_ids (u ∷ us) =
    consed (get_actor_from_user_id u) (m_get_actor_from_user_ids us)
