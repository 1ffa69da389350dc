-- ===== src/Service/Group/Runs.antt =====
-- That joining and leaving a group (internal/service/group_service.go) succeed whenever they are
-- allowed, on a backend that fails no call.
use nexo_im.Base.{refl, [], Text, ◌≡◌, ◌↔◌, true, Option-cases, find, arith}
use nexo_im.Errors.{ok}
use nexo_im.Entity.ConversationId.{gen_group_conversation_id}
use nexo_im.Backend.{Db}
use nexo_im.Backend.Memory.{State, memory, holding}
use nexo_im.Repository.Statement.{del}
use nexo_im.Repository.Seq.{
  of_conversation, first_seq_conversation, get_max_seq_with_lock, set_seq_user_min_seq,
  set_seq_user_max_seq,
}
use nexo_im.Entity.GroupMember.{is_owner}
use nexo_im.Repository.Group.{
  of_id, of_member, first_group, first_member, get_by_id, get_member, upsert_member, add_member,
  set_member_status, update_member_status,
}
use nexo_im.Service.Group.{admit, join_tx, join_group, quit_checked, leave, quit_tx, quit_group}
use nexo_im.Service.Group.Membership.{joinable, leavable}
use nexo_im.Service.Group.Membership.Joining.{join_group-IsJoined}
use nexo_im.Service.Group.Membership.Leaving.{quit_group-IsLeft}

admit_runs :
    (g u i : Text) (s : State)
    → s.faults ≡ []
    → ((admit memory g u i s).0 ≡ ok tt) × ((admit memory g u i s).1.faults ≡ [])
unfolding admit get_max_seq_with_lock first_seq_conversation add_member upsert_member
    set_seq_user_min_seq del
admit_runs g u i s h = ground (
  arith,
  Option-cases (find (of_conversation (gen_group_conversation_id g)) s.db.seq_conversations),
)

join_tx_runs :
    (g u i : Text) (d : Db)
    → joinable g u d ≡ true
    → ((join_tx memory g u i (holding d)).0 ≡ ok tt)
      × ((join_tx memory g u i (holding d)).1.faults ≡ [])
unfolding join_tx get_by_id first_group get_member first_member
join_tx_runs g u i d h = ground (
  arith,
  admit_runs g u i (get_member memory g u (get_by_id memory g (holding d)).1).1 refl,
  Option-cases (find (of_id g) d.groups),
  Option-cases (find (of_member g u) d.members),
)

-- On the backend in memory, where no call fails, a join succeeds exactly when the group exists, is
-- not dismissed, and the user is not an active member of it.
pub join_group-joinable :
    (g u i : Text) (d : Db)
    → ((join_group memory g u i (holding d)).0 ≡ ok tt) ↔ (joinable g u d ≡ true)
unfolding join_group
join_group-joinable g u i d = (
  λ h. (join_group-IsJoined memory g u i (holding d) h).allowed,
  λ h. ground (arith, join_tx_runs g u i d h),
)

-- On the backend in memory, where no call fails, a quit succeeds exactly when the user is an active
-- member of the group and not its owner.
pub quit_group-leavable :
    (g u : Text) (d : Db)
    → ((quit_group memory g u (holding d)).0 ≡ ok tt) ↔ (leavable g u d ≡ true)
unfolding quit_group quit_tx quit_checked is_owner leave get_member first_member
    get_max_seq_with_lock first_seq_conversation update_member_status set_member_status
    set_seq_user_max_seq del
quit_group-leavable g u d = (
  λ h. (quit_group-IsLeft memory g u (holding d) h).allowed,
  λ h. ground (
    arith,
    Option-cases (find (of_member g u) d.members),
    Option-cases (find (of_conversation (gen_group_conversation_id g)) d.seq_conversations),
  ),
)
