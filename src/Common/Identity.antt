-- ===== src/Common/Identity.antt =====
-- common/identity.go: the user ids of the system for the users and agents of other systems. The
-- text of an error is not modelled.
pub mod RoundTrip
use nexo_im.Base.{
  ℕ, ◌+◌, ℤ, Text, codes, ◌=ₜ◌, Bool, true, false, ◌++◌, Option, none, some, if◌then◌else◌, ltb,
  length, take, drop,
}
use nexo_im.Strconv.{format_int, parse_int}

abbrev pub prefix_length : ℕ
prefix_length = 4

abbrev pub role_user : Text
role_user = codes "user"

abbrev pub role_agent : Text
role_agent = codes "agent"

pub record Actor : Type 0 where
  pub id : ℤ
  pub role : Text

unfoldable pub to_im_user_id : Actor → Option Text
to_im_user_id a =
    if a.role =ₜ role_user
    then some (codes "u___" ++ format_int a.id)
    else if a.role =ₜ role_agent
    then some (codes "ag__" ++ format_int a.id)
    else none

pub data IdentityError : Type 0 where
  nil_actor invalid_user_id unknown_prefix invalid_id : IdentityError

-- The actor after the call: an error leaves the id as it was, and the role of a known prefix is set
-- before the number is read.
abbrev with_id : Actor → ℤ × Bool → Option Actor × Option IdentityError
with_id a (id, true) = (some (record a { id = id }), none)
with_id a (id, false) = (some a, some invalid_id)

unfoldable pub from_im_user_id : Option Actor → Text → Option Actor × Option IdentityError
from_im_user_id none user_id = (none, some nil_actor)
from_im_user_id (some a) user_id =
    if ltb (length user_id) (prefix_length + 1)
    then (some a, some invalid_user_id)
    else if take 4 user_id =ₜ codes "u___"
    then with_id (record a { role = role_user }) (parse_int (drop 4 user_id))
    else if take 4 user_id =ₜ codes "ag__"
    then with_id (record a { role = role_agent }) (parse_int (drop 4 user_id))
    else (some a, some unknown_prefix)
