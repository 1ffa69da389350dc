-- ===== src/Service/User.antt =====
-- internal/service/user_service.go
use nexo_im.Base.{Text, is_empty, not, ◌&&◌, Option, none, some, List, map, if◌then◌else◌}
use nexo_im.Errors.{code, internal_server, user_not_found}
use nexo_im.Entity.User.{User, UserInfo, to_user_info}
use nexo_im.Backend.{Backend}
use nexo_im.Backend.Monad.{Action, pure, fail, ◌>>=◌, ◌>>◌, or_fail, fail_if}
use nexo_im.Repository.User
use nexo_im.Repository.User.{UserUpdates}

pub record UpdateUserRequest : Type 0 where
  pub nickname : Text
  pub avatar : Text
  pub extra : Text

-- A field that is empty is not updated.
abbrev given : Text → Option Text
given t = if is_empty t then none else some t

unfoldable pub user_updates : UpdateUserRequest → UserUpdates
user_updates req = record {
  nickname = given req.nickname;
  avatar = given req.avatar;
  extra = given req.extra;
}

module _ (b : Backend) where
  open b use {World}

  abbrev info_of : Option User → Action World UserInfo
  info_of none = fail (code user_not_found)
  info_of (some user) = pure (to_user_info user)

  unfoldable pub get_user_info : Text → Action World UserInfo
  get_user_info user_id = do
    user ← or_fail (User.get_by_id b user_id) (code user_not_found)
    info_of user

  unfoldable pub get_user_infos : List Text → Action World (List UserInfo)
  get_user_infos user_ids = do
    users ← or_fail (User.get_by_ids b user_ids) (code internal_server)
    pure (map to_user_info users)

  -- `if len(updates) > 0`
  unfoldable pub store_updates : Text → UpdateUserRequest → Action World (Unit {0})
  store_updates user_id req =
      if is_empty req.nickname && is_empty req.avatar && is_empty req.extra
      then pure tt
      else or_fail (User.update b user_id (user_updates req)) (code internal_server)

  unfoldable pub update_user_info : Text → UpdateUserRequest → Action World UserInfo
  update_user_info user_id req = do
    exists ← or_fail (User.exists b user_id) (code internal_server)
    fail_if (not exists) (code user_not_found)
    store_updates user_id req
    get_user_info user_id
