-- ===== src/Service/Group.antt =====
-- internal/service/group_service.go
pub mod Calls
pub mod Membership
pub mod Runs
use nexo_im.Base.{ℤ, pos, ◌+ℤ◌, Text, ◌=ₜ◌, not, Bool, false, List, [], ◌∷◌, if◌then◌else◌}
use nexo_im.Errors.{
  Failure, no_record, code, internal_server, group_not_found, group_dismissed, not_group_member,
  already_group_member, cannot_kick_owner, Result, ok, err,
}
use nexo_im.Entity.ConversationId.{gen_group_conversation_id}
use nexo_im.Entity.Group.{
  Group, is_normal, group_status_normal, group_member_status_normal, group_member_status_left,
  role_level_member, role_level_owner,
}
use nexo_im.Entity.GroupMember
use nexo_im.Entity.GroupMember.{GroupMember, is_owner}
use nexo_im.Backend.{Backend}
use nexo_im.Backend.Monad.{Action, pure, fail, ◌>>=◌, ◌>>◌, attempt, or_fail, fail_if, gets, lift}
use nexo_im.Repository.Seq.{
  get_max_seq_with_lock, set_seq_user_min_seq, set_seq_user_max_seq, ensure_seq_conversation_exists,
}
use nexo_im.Repository.Group.{
  insert_group, get_by_id, add_member, get_member, get_active_members, update_member_status,
  get_member_count,
}

pub record CreateGroupRequest : Type 0 where
  pub name : Text
  pub introduction : Text
  pub avatar : Text
  pub member_ids : List Text

pub record GroupInfo : Type 0 where
  pub group : Group
  pub member_count : ℤ

unfoldable pub new_group : Text → Text → CreateGroupRequest → ℤ → Group
new_group group_id creator_id req now = record {
  id = group_id;
  name = req.name;
  introduction = req.introduction;
  avatar = req.avatar;
  status = group_status_normal;
  creator_user_id = creator_id;
  created_at = now;
  updated_at = now;
}

-- `if e, ok := err.(*errcode.Error); ok { return e }; return errcode.ErrInternalServer`
abbrev pub as_service_error : {A : Type 0} → Result A → Result A
as_service_error (ok a) = ok a
as_service_error (err (code c)) = err (code c)
as_service_error (err f) = err (code internal_server)

unfoldable pub new_member : Text → Text → ℤ → ℤ → ℤ → Text → GroupMember
new_member group_id user_id role now join_seq inviter = record {
  group_id = group_id;
  user_id = user_id;
  role_level = role;
  status = group_member_status_normal;
  joined_at = now;
  join_seq = join_seq;
  inviter_user_id = inviter;
  updated_at = pos 0;
}

-- `existingMember != nil && existingMember.IsNormal()`, where "no record" is no error.
abbrev pub already_member : Result GroupMember → Result Bool
already_member (ok m) = ok (GroupMember.is_normal m)
already_member (err no_record) = ok false
already_member (err f) = err f

module _ (b : Backend) where
  open b use {World, exec, transaction, clock}

  -- One member of a new group, who sees everything from the first message on.
  unfoldable pub add_first_member : Text → GroupMember → Action World (Unit {0})
  add_first_member conversation_id member = do
    add_member b member
    set_seq_user_min_seq b member.user_id conversation_id (pos 1)

  unfoldable pub add_initial_members : Text → Text → ℤ → List Text → Action World (Unit {0})
  add_initial_members group_id creator_id now [] = pure tt
  add_initial_members group_id creator_id now (member_id ∷ member_ids) =
      let rest = add_initial_members group_id creator_id now member_ids in
      if member_id =ₜ creator_id then rest else do
        add_first_member (gen_group_conversation_id group_id)
            (new_member group_id member_id role_level_member now (pos 1) creator_id)
        rest

  unfoldable pub store_group : Group → List Text → Action World (Unit {0})
  store_group group member_ids = do
    exec Unit (insert_group group)
    ensure_seq_conversation_exists b (gen_group_conversation_id group.id)
    add_first_member (gen_group_conversation_id group.id)
        (new_member group.id group.creator_user_id role_level_owner group.created_at (pos 1) [])
    add_initial_members group.id group.creator_user_id group.created_at member_ids

  -- `group_id` is what `idgen.NextID` gave.
  unfoldable pub create_group : Result Text → Text → CreateGroupRequest → Action World Group
  create_group next_id creator_id req = do
    group_id ← or_fail (lift next_id) (code internal_server)
    now ← gets clock
    let group = new_group group_id creator_id req now
    or_fail (transaction Unit (store_group group req.member_ids)) (code internal_server)
    pure group

  -- From the lock of the sequence number on.
  unfoldable pub admit : Text → Text → Text → Action World (Unit {0})
  admit group_id user_id inviter_id = do
    max_seq ← get_max_seq_with_lock b (gen_group_conversation_id group_id)
    now ← gets clock
    add_member b (new_member group_id user_id role_level_member now (max_seq +ℤ pos 1) inviter_id)
    set_seq_user_min_seq b user_id (gen_group_conversation_id group_id) (max_seq +ℤ pos 1)

  unfoldable pub join_tx : Text → Text → Text → Action World (Unit {0})
  join_tx group_id user_id inviter_id = do
    group ← or_fail (get_by_id b group_id) (code group_not_found)
    fail_if (not (is_normal group)) (code group_dismissed)
    existing ← attempt (get_member b group_id user_id)
    already ← lift (already_member existing)
    fail_if already (code already_group_member)
    admit group_id user_id inviter_id

  unfoldable pub join_group : Text → Text → Text → Action World (Unit {0})
  join_group group_id user_id inviter_id = do
    done ← attempt (transaction Unit (join_tx group_id user_id inviter_id))
    lift (as_service_error done)

  -- The writes of `QuitGroup`.
  unfoldable pub leave : Text → Text → Action World (Unit {0})
  leave group_id user_id = do
    max_seq ← get_max_seq_with_lock b (gen_group_conversation_id group_id)
    update_member_status b group_id user_id group_member_status_left
    set_seq_user_max_seq b user_id (gen_group_conversation_id group_id) max_seq

  unfoldable pub quit_checked : GroupMember → Action World (Unit {0})
  quit_checked member = do
    fail_if (not (GroupMember.is_normal member)) (code not_group_member)
    -- Owner cannot quit
    fail_if (is_owner member) (code cannot_kick_owner)

  unfoldable pub quit_tx : Text → Text → Action World (Unit {0})
  quit_tx group_id user_id = do
    member ← or_fail (get_member b group_id user_id) (code not_group_member)
    quit_checked member
    leave group_id user_id

  unfoldable pub quit_group : Text → Text → Action World (Unit {0})
  quit_group group_id user_id = do
    done ← attempt (transaction Unit (quit_tx group_id user_id))
    lift (as_service_error done)

  -- A count that fails is answered as 0.
  abbrev or_zero : Result ℤ → ℤ
  or_zero (ok n) = n
  or_zero (err _) = pos 0

  unfoldable pub get_group_info : Text → Action World GroupInfo
  get_group_info group_id = do
    group ← or_fail (get_by_id b group_id) (code group_not_found)
    count ← attempt (get_member_count b group_id)
    pure (record { group = group; member_count = or_zero count })

  unfoldable pub get_group_members : Text → Action World (List GroupMember)
  get_group_members group_id = or_fail (get_active_members b group_id) (code internal_server)
