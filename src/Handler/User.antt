-- ===== src/Handler/User.antt =====
-- internal/handler/user_handler.go
use nexo_im.Base.{Text, is_empty, Option, none, some, List, if◌then◌else◌}
use nexo_im.Errors.{unauthorized, invalid_param}
use nexo_im.Entity.User.{UserInfo}
use nexo_im.Backend.{Backend}
use nexo_im.Service.User
use nexo_im.Service.User.{UpdateUserRequest}
use nexo_im.Response.{Response, success, error_with_code}
use nexo_im.Gateway.UserMap.{UserMap}
use nexo_im.Gateway.Status.{OnlineStatusResult}
use nexo_im.Gateway.Status
use nexo_im.Handler.Message.{Handler, answers, rejects}

module _ (b : Backend) where
  open b use {World}

  unfoldable pub get_user_info : Text → Handler World UserInfo
  get_user_info user_id =
      if is_empty user_id then rejects unauthorized else answers (User.get_user_info b user_id)

  -- `user_id` is the path's.
  unfoldable pub get_user_info_by_id : Text → Handler World UserInfo
  get_user_info_by_id user_id =
      if is_empty user_id then rejects invalid_param else answers (User.get_user_info b user_id)

  abbrev updates : Text → Option UpdateUserRequest → Handler World UserInfo
  updates user_id none = rejects invalid_param
  updates user_id (some req) = answers (User.update_user_info b user_id req)

  unfoldable pub update_user_info : Text → Option UpdateUserRequest → Handler World UserInfo
  update_user_info user_id body =
      if is_empty user_id then rejects unauthorized else updates user_id body

  unfoldable pub get_users_info : Option (List Text) → Handler World (List UserInfo)
  get_users_info none = rejects invalid_param
  get_users_info (some user_ids) = answers (User.get_user_infos b user_ids)

unfoldable pub get_users_online_status :
    UserMap → Option (List Text) → Response (List OnlineStatusResult)
get_users_online_status m none = error_with_code invalid_param
get_users_online_status m (some user_ids) = success (Status.get_users_online_status m user_ids)
