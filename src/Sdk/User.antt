-- ===== src/Sdk/User.antt =====
-- sdk/user.go
use nexo_im.Base.{Text, Option, List, []}
use nexo_im.Sdk.Endpoints
use nexo_im.Sdk.Endpoints.{method_of, path_of}
use nexo_im.Sdk.Client.{Client, Context, RequestOption}
use nexo_im.Sdk.Client.Answers.{Platform, Call, read_over, call, get}
use nexo_im.Sdk.Types.{UserInfo, UpdateUserRequest, OnlineStatus, zero_user}

module _ (p : Platform) (c : Client) (ctx : Context) where
  unfoldable pub get_user_info : Call p UserInfo
  get_user_info =
      get p c ctx (path_of Endpoints.user_info) [] (read_over zero_user p.json.decode_user) []

  unfoldable pub get_user_info_by_id : Text → Call p UserInfo
  get_user_info_by_id user_id =
      get p c ctx (path_of (Endpoints.profile user_id)) [] (read_over zero_user p.json.decode_user)
        []

  unfoldable pub update_user_info : UpdateUserRequest → Call p UserInfo
  update_user_info req =
      call p c ctx Endpoints.update_user (p.json.encode_update_user req)
        (read_over zero_user p.json.decode_user) []

  unfoldable pub get_users_info : List Text → Call p (List UserInfo)
  get_users_info user_ids =
      call p c ctx Endpoints.batch_info (p.json.encode_users_info (record { user_ids = user_ids }))
        (read_over [] p.json.decode_users) []

  unfoldable pub get_users_online_status : List Text → Call p (List OnlineStatus)
  get_users_online_status user_ids =
      call p c ctx Endpoints.online_status
        (p.json.encode_users_online_status (record { user_ids = user_ids }))
        (read_over [] p.json.decode_online_statuses) []

  module _ (opts : List (Option RequestOption)) where
    unfoldable pub internal_get_user_info : Call p UserInfo
    internal_get_user_info =
        get p c ctx (path_of Endpoints.internal_user_info) []
          (read_over zero_user p.json.decode_user) opts

    unfoldable pub internal_get_user_info_by_id : Text → Call p UserInfo
    internal_get_user_info_by_id user_id =
        get p c ctx (path_of (Endpoints.internal_profile user_id)) []
          (read_over zero_user p.json.decode_user) opts

    unfoldable pub internal_update_user_info : UpdateUserRequest → Call p UserInfo
    internal_update_user_info req =
        call p c ctx Endpoints.internal_update_user (p.json.encode_update_user req)
          (read_over zero_user p.json.decode_user) opts

    unfoldable pub internal_get_users_info : List Text → Call p (List UserInfo)
    internal_get_users_info user_ids =
        call p c ctx Endpoints.internal_batch_info
          (p.json.encode_users_info (record { user_ids = user_ids }))
          (read_over [] p.json.decode_users) opts

    unfoldable pub internal_get_users_online_status : List Text → Call p (List OnlineStatus)
    internal_get_users_online_status user_ids =
        call p c ctx Endpoints.internal_online_status
          (p.json.encode_users_online_status (record { user_ids = user_ids }))
          (read_over [] p.json.decode_online_statuses) opts
