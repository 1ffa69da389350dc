-- ===== src/Entity/User.antt =====
-- internal/entity/user.go
use nexo_im.Base.{ℤ, Text, Option}

pub record User : Type 0 where
  pub id : Text
  pub nickname : Text
  pub avatar : Text
  pub password : Text
  pub extra : Option Text
  pub created_at : ℤ
  pub updated_at : ℤ

pub record UserInfo : Type 0 where
  pub id : Text
  pub nickname : Text
  pub avatar : Text
  pub extra : Option Text
  pub created_at : ℤ

unfoldable pub to_user_info : User → UserInfo
to_user_info u = record {
  id = u.id;
  nickname = u.nickname;
  avatar = u.avatar;
  extra = u.extra;
  created_at = u.created_at;
}
