-- ===== src/Service/Message/Content.antt =====
-- internal/service/message_service.go: the check of a message's content, and its request.
pub mod Kinds
use nexo_im.Base.{ℕ, ℤ, pos, eqb_ℤ, Text, is_empty, not, Option, is_some, Bool, if◌then◌else◌, ◌==◌}
use nexo_im.Errors.{code, invalid_param, Result, ok, err}
use nexo_im.Entity.Message.Content.{MessageContent, payload_count}

pub record SendMessageRequest : Type 0 where
  pub client_msg_id : Text
  pub recv_id : Text
  pub group_id : Text
  pub session_type : ℤ
  pub msg_type : ℤ
  pub content : MessageContent

-- pkg/constant/constant.go
abbrev pub session_type_single : ℤ
session_type_single = pos 1

abbrev pub session_type_group : ℤ
session_type_group = pos 2

abbrev pub msg_type_text : ℤ
msg_type_text = pos 1

abbrev pub msg_type_image : ℤ
msg_type_image = pos 2

abbrev pub msg_type_video : ℤ
msg_type_video = pos 3

abbrev pub msg_type_audio : ℤ
msg_type_audio = pos 4

abbrev pub msg_type_file : ℤ
msg_type_file = pos 5

abbrev pub msg_type_custom : ℤ
msg_type_custom = pos 100

abbrev require : Bool → Result (Unit {0})
require c = if c then ok tt else err (code invalid_param)

unfoldable pub validate_message_content : ℤ → MessageContent → Result (Unit {0})
validate_message_content msg_type c =
    if not (payload_count c == 1)
    then err (code invalid_param)
    else if eqb_ℤ msg_type msg_type_text
    then require (is_some c.text)
    else if eqb_ℤ msg_type msg_type_image
    then require (is_some c.image)
    else if eqb_ℤ msg_type msg_type_video
    then require (is_some c.video)
    else if eqb_ℤ msg_type msg_type_audio
    then require (is_some c.audio)
    else if eqb_ℤ msg_type msg_type_file
    then require (is_some c.file)
    else if eqb_ℤ msg_type msg_type_custom
    then require (not (is_empty c.custom))
    else err (code invalid_param)
