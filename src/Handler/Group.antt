-- ===== src/Handler/Group.antt =====
-- internal/handler/group_handler.go. `new_id` is what idgen answers to CreateGroup.
use nexo_im.Base.{Text, is_empty, Option, none, some, List, if◌then◌else◌}
use nexo_im.Errors.{unauthorized, invalid_param, Result}
use nexo_im.Entity.Group.{Group}
use nexo_im.Entity.GroupMember.{GroupMember}
use nexo_im.Backend.{Backend}
use nexo_im.Service.Group
use nexo_im.Service.Group.{CreateGroupRequest, GroupInfo}
use nexo_im.Handler.Message.{Handler, answers, rejects}

pub record JoinGroupRequest : Type 0 where
  pub group_id : Text
  pub inviter_id : Text

module _ (b : Backend) where
  open b use {World}

  abbrev creates : Result Text → Text → Option CreateGroupRequest → Handler World Group
  creates new_id user_id none = rejects invalid_param
  creates new_id user_id (some req) = answers (Group.create_group b new_id user_id req)

  unfoldable pub create_group : Result Text → Text → Option CreateGroupRequest → Handler World Group
  create_group new_id user_id body =
      if is_empty user_id then rejects unauthorized else creates new_id user_id body

  abbrev joins : Text → Option JoinGroupRequest → Handler World (Unit {0})
  joins user_id none = rejects invalid_param
  joins user_id (some req) = answers (Group.join_group b req.group_id user_id req.inviter_id)

  unfoldable pub join_group : Text → Option JoinGroupRequest → Handler World (Unit {0})
  join_group user_id body = if is_empty user_id then rejects unauthorized else joins user_id body

  -- The bound request is the group's id.
  abbrev quits : Text → Option Text → Handler World (Unit {0})
  quits user_id none = rejects invalid_param
  quits user_id (some group_id) = answers (Group.quit_group b group_id user_id)

  unfoldable pub quit_group : Text → Option Text → Handler World (Unit {0})
  quit_group user_id body = if is_empty user_id then rejects unauthorized else quits user_id body

  unfoldable pub get_group_info : Text → Handler World GroupInfo
  get_group_info group_id =
      if is_empty group_id then rejects invalid_param else answers (Group.get_group_info b group_id)

  unfoldable pub get_group_members : Text → Handler World (List GroupMember)
  get_group_members group_id =
      if is_empty group_id
      then rejects invalid_param
      else answers (Group.get_group_members b group_id)
