-- ===== src/Gateway/AppPush/UserIds.antt =====
-- Which user ids internal/gateway/app_push.go takes as those of app users.
use nexo_im.Base.{
  IsInt64, false, ℤ, pos, ltb_ℤ, Text, codes, ◌=ₜ◌, ◌≡◌, inl, inr, none, some, [], ◌++◌, ◌&&◌, refl,
  if◌then◌else◌, arith,
}
use nexo_im.Strings.{NoSpaces, trim_space-NoSpaces}
use nexo_im.Strconv.{format_int, parse_int, parse_uint, scan}
use nexo_im.Strconv.RoundTrip.{NoSpaces-format_int}
use nexo_im.Common.Identity.{Actor, role_user, role_agent, to_im_user_id}
use nexo_im.Common.Identity.RoundTrip.{HasRole, from_im_user_id-to_im_user_id}
use nexo_im.Gateway.AppPush.{parse_trimmed, parse_user_id}

-- Such texts hold no white space and are no numbers.
prefixed :
    (n : ℤ)
    → NoSpaces (codes "u___" ++ format_int n)
      × NoSpaces (codes "ag__" ++ format_int n)
      × (parse_int (codes "u___" ++ format_int n) ≡ (pos 0, false))
      × (parse_int (codes "ag__" ++ format_int n) ≡ (pos 0, false))
unfolding parse_int parse_uint scan
prefixed n = (
  (refl, (refl, (refl, (refl, NoSpaces-format_int n)))),
  (refl, (refl, (refl, (refl, NoSpaces-format_int n)))),
  refl,
  refl,
)

user_case :
    (n : ℤ)
    → IsInt64 n
    → parse_user_id (codes "u___" ++ format_int n) ≡ (if ltb_ℤ (pos 0) n then some n else none)
unfolding parse_user_id parse_trimmed to_im_user_id ◌=ₜ◌
user_case n h =
    let a : Actor = record { id = n; role = role_user } in
    let nobody : Actor = record { id = pos 0; role = [] } in
    let s = codes "u___" ++ format_int n in
    ground (
      arith,
      prefixed n,
      trim_space-NoSpaces s,
      from_im_user_id-to_im_user_id a nobody h (inl refl),
    )

agent_case : (n : ℤ) → IsInt64 n → parse_user_id (codes "ag__" ++ format_int n) ≡ none
unfolding parse_user_id parse_trimmed to_im_user_id ◌=ₜ◌
agent_case n h =
    let a : Actor = record { id = n; role = role_agent } in
    let nobody : Actor = record { id = pos 0; role = [] } in
    let s = codes "ag__" ++ format_int n in
    ground (
      arith,
      prefixed n,
      trim_space-NoSpaces s,
      from_im_user_id-to_im_user_id a nobody h (inr refl),
    )

-- The user id of an actor with a known role and an int64 id is taken as that of an app user, with the
-- actor's id as the number, exactly if the role is "user" and the id is positive; else it is refused.
pub parse_user_id-to_im_user_id :
    (a : Actor) (s : Text)
    → IsInt64 a.id
    → HasRole a
    → to_im_user_id a ≡ some s
    → parse_user_id s ≡ (if a.role =ₜ role_user && ltb_ℤ (pos 0) a.id then some a.id else none)
unfolding to_im_user_id ◌=ₜ◌
parse_user_id-to_im_user_id a s h (inl user) e = ground (arith, user_case a.id h)
parse_user_id-to_im_user_id a s h (inr agent) e = ground (arith, agent_case a.id h)
