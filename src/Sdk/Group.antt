-- ===== src/Sdk/Group.antt =====
-- sdk/group.go
use nexo_im.Base.{Text, codes, List, [], ◌∷◌}
use nexo_im.Sdk.Endpoints
use nexo_im.Sdk.Endpoints.{method_of, path_of}
use nexo_im.Sdk.Client.{Client, Context}
use nexo_im.Sdk.Client.Answers.{Platform, Call, unread, read_over, call, get}
use nexo_im.Sdk.Types.{GroupInfo, GroupMember, CreateGroupRequest, zero_group}

module _ (p : Platform) (c : Client) (ctx : Context) where
  unfoldable pub create_group : CreateGroupRequest → Call p GroupInfo
  create_group req =
      call p c ctx Endpoints.create_group (p.json.encode_create_group req)
        (read_over zero_group p.json.decode_group) []

  unfoldable pub join_group : Text → Text → Call p (Unit {0})
  join_group group_id inviter_id =
      call p c ctx Endpoints.join_group
        (p.json.encode_join_group (record { group_id = group_id; inviter_id = inviter_id }))
        (unread tt) []

  unfoldable pub quit_group : Text → Call p (Unit {0})
  quit_group group_id =
      call p c ctx Endpoints.quit_group (p.json.encode_quit_group (record { group_id = group_id }))
        (unread tt) []

  unfoldable pub get_group_info : Text → Call p GroupInfo
  get_group_info group_id =
      get p c ctx (path_of Endpoints.group_info) ((codes "group_id", group_id) ∷ [])
        (read_over zero_group p.json.decode_group) []

  unfoldable pub get_group_members : Text → Call p (List GroupMember)
  get_group_members group_id =
      get p c ctx (path_of Endpoints.group_members) ((codes "group_id", group_id) ∷ [])
        (read_over [] p.json.decode_members) []
