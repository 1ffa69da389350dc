-- ===== src/Entity/GroupMember.antt =====
-- internal/entity/group.go: members of a group.
use nexo_im.Base.{ℤ, Text, Bool, eqb_ℤ, leb_ℤ}
use nexo_im.Entity.Group.{group_member_status_normal, role_level_owner, role_level_admin}

pub record GroupMember : Type 0 where
  pub group_id : Text
  pub user_id : Text
  pub role_level : ℤ
  pub status : ℤ
  pub joined_at : ℤ
  pub join_seq : ℤ
  pub inviter_user_id : Text
  pub updated_at : ℤ

unfoldable pub is_normal : GroupMember → Bool
is_normal m = eqb_ℤ m.status group_member_status_normal

unfoldable pub is_owner : GroupMember → Bool
is_owner m = eqb_ℤ m.role_level role_level_owner

unfoldable pub is_admin : GroupMember → Bool
is_admin m = leb_ℤ role_level_admin m.role_level
