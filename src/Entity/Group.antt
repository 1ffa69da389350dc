-- ===== src/Entity/Group.antt =====
-- internal/entity/group.go, with the status and role constants of pkg/constant/constant.go.
use nexo_im.Base.{ℤ, pos, Text, Bool, eqb_ℤ}

abbrev pub group_status_normal : ℤ
group_status_normal = pos 0

abbrev pub group_status_dismissed : ℤ
group_status_dismissed = pos 1

abbrev pub group_member_status_normal : ℤ
group_member_status_normal = pos 0

abbrev pub group_member_status_left : ℤ
group_member_status_left = pos 1

abbrev pub role_level_member : ℤ
role_level_member = pos 0

abbrev pub role_level_admin : ℤ
role_level_admin = pos 1

abbrev pub role_level_owner : ℤ
role_level_owner = pos 2

pub record Group : Type 0 where
  pub id : Text
  pub name : Text
  pub introduction : Text
  pub avatar : Text
  pub status : ℤ
  pub creator_user_id : Text
  pub created_at : ℤ
  pub updated_at : ℤ

unfoldable pub is_normal : Group → Bool
is_normal g = eqb_ℤ g.status group_status_normal
