-- ===== src/Gateway/AppPush.antt =====
-- internal/gateway/app_push.go and the part of internal/gateway/ws_server.go that builds a push to
-- the app gateway. What the app gateway answers and what gjson finds under `show_text` are parameters.
pub mod UserIds
pub mod Sender
use nexo_im.Base.{
  ◌||◌, ℤ, pos, leb_ℤ, ltb_ℤ, eqb_ℤ, Text, codes, ◌=ₜ◌, is_empty, Bool, true, false, ◌&&◌, not, [],
  ◌∷◌, ◌++◌, Option, none, some, if◌then◌else◌,
}
use nexo_im.Strings.{trim_space}
use nexo_im.Strconv.{parse_int}
use nexo_im.Common.Identity.{Actor, IdentityError, from_im_user_id, role_user}
use nexo_im.Entity.Message.{Message}
use nexo_im.Entity.Message.Content.{to_flat}
use nexo_im.Service.Message.Content.{
  session_type_single, session_type_group, msg_type_text, msg_type_image, msg_type_video,
  msg_type_audio, msg_type_file, msg_type_custom,
}

abbrev user_of : Option Actor × Option IdentityError → Option ℤ
user_of (some a, none) = if ltb_ℤ (pos 0) a.id && a.role =ₜ role_user then some a.id else none
user_of (some a, some e) = none
user_of (none, e) = none

abbrev positive_or : Option ℤ → ℤ × Bool → Option ℤ
positive_or other (n, true) = if ltb_ℤ (pos 0) n then some n else other
positive_or other (n, false) = other

-- A positive number, or the user id of a user; `none` is the error.
unfoldable pub parse_trimmed : Text → Option ℤ
parse_trimmed raw =
    if is_empty raw
    then none
    else positive_or (user_of (from_im_user_id (some (record { id = pos 0; role = [] })) raw))
        (parse_int raw)

unfoldable pub parse_user_id : Text → Option ℤ
parse_user_id raw = parse_trimmed (trim_space raw)

-- The map that goes with a push, by its keys.
pub record AppPushData : Type 0 where
  pub conversation_id : Text
  pub seq : ℤ
  pub client_msg_id : Text
  pub sender_id : Text
  pub recv_id : Text
  pub group_id : Text
  pub session_type : ℤ
  pub msg_type : ℤ

pub record AppPushRequest : Type 0 where
  pub user_id : ℤ
  pub title : Text
  pub body : Text
  pub data_map : AppPushData

pub data BuildResult : Type 0 where
  -- both results nil
  nothing : BuildResult
  failed : BuildResult
  built : AppPushRequest → BuildResult

-- `user_info_provider` is nil, or what GetUserDisplayName answers, `none` for an error.
module _ (show_text : Text → Text) (user_info_provider : Option (ℤ → Option Text)) where
  unfoldable pub build_push_body : Option Message → Text
  build_push_body none = codes "You received a new message"
  build_push_body (some msg) =
      let flat_msg = to_flat msg.content in
      if eqb_ℤ msg.msg_type msg_type_text
      then flat_msg.text
      else if eqb_ℤ msg.msg_type msg_type_image
      then codes "[Image]"
      else if eqb_ℤ msg.msg_type msg_type_video
      then codes "[Video]"
      else if eqb_ℤ msg.msg_type msg_type_audio
      then codes "[Audio]"
      else if eqb_ℤ msg.msg_type msg_type_file
      then codes "[File]"
      else if eqb_ℤ msg.msg_type msg_type_custom && not (is_empty flat_msg.custom)
      then show_text flat_msg.custom
      else codes "You received a new message"

  abbrev title_of_name : Text → Option Text → Text
  title_of_name title none = title
  title_of_name title (some answer) =
      let name = trim_space answer in
      if is_empty name then title else name ++ codes " sent you a message"

  abbrev title_of_sender : Option (ℤ → Option Text) → Option ℤ → Text
  title_of_sender (some provider) (some sender) =
      title_of_name (codes "You have a new message") (provider sender)
  title_of_sender (some provider) none = codes "You have a new message"
  title_of_sender none sender = codes "You have a new message"

  unfoldable pub push_title : Message → Text
  push_title msg =
      if eqb_ℤ msg.session_type session_type_group
      then codes "You have a new group message"
      else if eqb_ℤ msg.session_type session_type_single
      then title_of_sender user_info_provider (parse_user_id msg.sender_id)
      else codes "You have a new message"

  unfoldable pub push_data : Message → AppPushData
  push_data msg = record {
    conversation_id = msg.conversation_id;
    seq = msg.seq;
    client_msg_id = msg.client_msg_id;
    sender_id = msg.sender_id;
    recv_id = msg.recv_id;
    group_id = msg.group_id;
    session_type = msg.session_type;
    msg_type = msg.msg_type;
  }

  abbrev request_for : Message → Option ℤ → BuildResult
  request_for msg none = failed
  request_for msg (some user_id) = built (record {
    user_id = user_id;
    title = push_title msg;
    body = build_push_body (some msg);
    data_map = push_data msg;
  })

  unfoldable pub build_app_push_request : Option Message → Text → BuildResult
  build_app_push_request none user_id = nothing
  build_app_push_request (some msg) user_id =
      if is_empty user_id then nothing else request_for msg (parse_user_id user_id)

  abbrev sent_request : BuildResult → Option AppPushRequest
  sent_request (built req) = some req
  sent_request nothing = none
  sent_request failed = none

-- What SendPush is given. `sender` is `appPushSender`: nil, or one that does or does not answer
-- GetUserDisplayName too.
unfoldable pub push_to_app_if_needed :
    (Text → Text)
    → Option (Option (ℤ → Option Text))
    → Option Message
    → Text
    → Option AppPushRequest
push_to_app_if_needed show_text none msg user_id = none
push_to_app_if_needed show_text (some none) msg user_id = none
push_to_app_if_needed show_text (some (some provider)) none user_id = none
push_to_app_if_needed show_text (some (some provider)) (some msg) user_id =
    if is_empty user_id || user_id =ₜ msg.sender_id
    then none
    else sent_request show_text (some provider)
        (build_app_push_request show_text (some provider) (some msg) user_id)
