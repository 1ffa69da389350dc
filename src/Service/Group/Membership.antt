-- ===== src/Service/Group/Membership.antt =====
-- What it is to have joined and to have left a group (internal/service/group_service.go).
pub mod Joining
pub mod Leaving
use nexo_im.Base.{
  ℤ, eqb_ℤ, pos, ◌+ℤ◌, ◌-ℤ◌, Text, =ₜ_refl, Option-cases, ◌≡◌, refl, ◌⊎◌, inl, inr, Bool,
  Bool-cases, true, false, not, ◌&&◌, Option, none, some, List, find, update, find-upsert_self,
  find-update_self, find-update_absent, subst, sym, ap, arith,
}
use mathlib.Core.Option
use mathlib.Core.Path.{subst₂}
use nexo_im.Errors.{Failure, ok, err, Result-cases}
use nexo_im.Entity.ConversationId.{gen_group_conversation_id}
use nexo_im.Entity.Group.{
  Group, is_normal, group_member_status_normal, group_member_status_left, role_level_member,
}
use nexo_im.Entity.GroupMember
use nexo_im.Entity.GroupMember.{GroupMember, is_owner}
use nexo_im.Entity.Seq.{SeqUser}
use nexo_im.Backend.{Db, Backend}
use nexo_im.Repository.Seq.{of_user, of_conversation, get_max_seq_with_lock}
use nexo_im.Repository.Group.{
  of_id, of_member, rejoined, upsert_member, set_member_status, get_by_id, get_member, add_member,
  update_member_status,
}
use nexo_im.Service.Group.{
  new_member, admit, join_tx, join_group, leave, quit_checked, quit_tx, quit_group,
}
use nexo_im.Service.Group.Calls.{
  newest, add_member_cases, update_member_status_cases, get_max_seq_with_lock_cases,
  set_seq_user_min_seq_cases, set_seq_user_max_seq_cases, get_by_id_cases, get_member_cases,
}

abbrev open_group : Option Group → Bool
open_group none = false
open_group (some g) = is_normal g

abbrev pub active : Option GroupMember → Bool
active none = false
active (some m) = GroupMember.is_normal m

-- 2 is the role of an owner.
abbrev pub owning : Option GroupMember → Bool
owning none = false
owning (some m) = eqb_ℤ m.role_level (pos 2)

-- The group exists and is not dismissed, and the user is not an active member of it.
abbrev pub joinable : Text → Text → Db → Bool
joinable g u d =
    open_group (find (of_id g) d.groups) && not (active (find (of_member g u) d.members))

-- The user is an active member of the group, and not its owner.
abbrev pub leavable : Text → Text → Db → Bool
leavable g u d =
    active (find (of_member g u) d.members) && not (owning (find (of_member g u) d.members))

-- The newest number of the group's conversation.
abbrev pub newest_in : Text → Db → ℤ
newest_in g d = newest (find (of_conversation (gen_group_conversation_id g)) d.seq_conversations)

-- What the membership says: status, role, first visible number, inviter.
abbrev pub membership : Option GroupMember → Option (ℤ × ℤ × ℤ × Text)
membership none = none
membership (some m) = some (m.status, m.role_level, m.join_seq, m.inviter_user_id)

pub record IsJoined (g u inviter : Text) (before after : Db) : Type 0 where
  pub allowed : joinable g u before ≡ true
  pub member :
      membership (find (of_member g u) after.members)
      ≡ some (group_member_status_normal, role_level_member, newest_in g before +ℤ pos 1, inviter)
  pub row :
      find (of_user u (gen_group_conversation_id g)) after.seq_users
      ≡ some (record {
        user_id = u;
        conversation_id = gen_group_conversation_id g;
        min_seq = newest_in g before +ℤ pos 1;
        max_seq = pos 0;
        read_seq = newest_in g before +ℤ pos 1 -ℤ pos 1;
      })
  pub messages : after.messages ≡ before.messages

-- The tables after a quit. The user's range ends at what was the newest number, if there is a row.
pub record HasLeft (g u : Text) (before after : Db) : Type 0 where
  pub left : active (find (of_member g u) after.members) ≡ false
  pub row :
      find (of_user u (gen_group_conversation_id g)) after.seq_users
      ≡ Option.map
          (λ (r : SeqUser). record r { max_seq = newest_in g before })
          (find (of_user u (gen_group_conversation_id g)) before.seq_users)
  pub messages : after.messages ≡ before.messages

pub record IsLeft (g u : Text) (before after : Db) : Type 0 where
  pub allowed : leavable g u before ≡ true
  pub closed : HasLeft g u before after
