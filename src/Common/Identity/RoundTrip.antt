-- ===== src/Common/Identity/RoundTrip.antt =====
-- The user id of an actor is read back by common/identity.go.
use nexo_im.Base.{IsInt64, Text, codes, ◌=ₜ◌, ◌≡◌, ◌⊎◌, inl, inr, none, some, ◌++◌, arith}
use nexo_im.Strconv.{format_int}
use nexo_im.Strconv.RoundTrip.{parse_int-format_int, length-format_int}
use nexo_im.Common.Identity.{Actor, role_user, role_agent, to_im_user_id, from_im_user_id}

abbrev pub HasRole : Actor → Type 0
HasRole a = (a.role ≡ role_user) ⊎ (a.role ≡ role_agent)

-- A user or agent whose id is an int64 has a user id, and reading that user id, into whatever actor,
-- gives its id and role without an error.
pub from_im_user_id-to_im_user_id :
    (a b : Actor)
    → IsInt64 a.id
    → HasRole a
    → (s : Text) × (to_im_user_id a ≡ some s) × (from_im_user_id (some b) s ≡ (some a, none))
unfolding to_im_user_id from_im_user_id ◌=ₜ◌
from_im_user_id-to_im_user_id a b h (inl user) = (
  codes "u___" ++ format_int a.id,
  ground arith,
  ground (arith, parse_int-format_int a.id h, length-format_int a.id),
)
from_im_user_id-to_im_user_id a b h (inr agent) = (
  codes "ag__" ++ format_int a.id,
  ground arith,
  ground (arith, parse_int-format_int a.id h, length-format_int a.id),
)
