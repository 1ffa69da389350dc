-- ===== src/Tests/Groups.antt =====
-- Runs of joining and leaving a group, and of what is read after that.
use nexo_im.Base.{
  sym, some, ap, true, ◌↔◌, List, select, ◌⊎◌, ◌<ℤ◌, ◌≢◌, update, All, upsert, pos, ◌+ℤ◌, ◌-ℤ◌,
  codes, ◌=ₜ◌, ◌≡◌, refl, [], ◌∷◌, find,
}
use mathlib.Core.Option
use nexo_im.Errors.{refused, code, already_group_member, ok, err}
use nexo_im.Entity.ConversationId.{gen_group_conversation_id}
use nexo_im.Entity.Seq.{SeqUser, clamp_seq_range, get_visible_range}
use nexo_im.Entity.Group.{is_normal}
use nexo_im.Entity.GroupMember
use nexo_im.Entity.GroupMember.{GroupMember, is_owner}
use nexo_im.Backend.Memory.{State, memory, holding}
use nexo_im.Repository.Group.{
  get_by_id, first_group, get_member, first_member, add_member, upsert_member, update_member_status,
  set_member_status,
}
use nexo_im.Repository.Statement.{del, redis_key_group_members}
use nexo_im.Repository.Seq.{
  of_user, get_max_seq_with_lock, first_seq_conversation, set_seq_user_min_seq,
  set_seq_user_max_seq, get_conversation_seq_info, get_seq_user, first_seq_user,
}
use nexo_im.Repository.Message
use nexo_im.Entity.Message.{Message}
use nexo_im.Repository.Message.{select_range, order_by_seq, insert_by_seq}
use nexo_im.Service.Group.{
  admit, join_group, join_tx, new_member, quit_group, quit_tx, quit_checked, leave,
}
use nexo_im.Service.Group.Membership.{IsJoined, newest_in}
use nexo_im.Service.Group.Membership.Joining.{join_group-IsJoined}
use nexo_im.Service.Message.Access.{check_group_chat_access, check_conversation_access}
use nexo_im.Service.Message.Pull.{pull_messages, pull_checked, require_access}
use nexo_im.Service.Message.Pull.Visible.{row_read}
use nexo_im.Service.History.{join_hides_history, quit_closes_group}
use nexo_im.Service.Group.Runs.{join_group-joinable, quit_group-leavable}
use nexo_im.Service.Group.Membership.{joinable, leavable}
use nexo_im.Tests.Data.{
  seq_conversation, ann, bob, club, club_chat, one_club, club_of_two, message, in_club, everything,
}

abbrev start : State
start = holding one_club

abbrev joined : State
joined = (join_group memory club bob ann start).1

bob_joins : (join_group memory club bob ann start).0 ≡ ok tt
unfolding join_group join_tx admit get_by_id first_group is_normal get_member first_member
    GroupMember.is_normal get_max_seq_with_lock first_seq_conversation add_member upsert_member
    new_member del redis_key_group_members set_seq_user_min_seq gen_group_conversation_id ◌=ₜ◌ ◌+ℤ◌
    ◌-ℤ◌ find upsert
bob_joins = refl

-- Ann is a member already.
ann_fails : (join_group memory club ann ann start).0 ≡ err (code already_group_member)
unfolding join_group join_tx admit get_by_id first_group is_normal get_member first_member
    GroupMember.is_normal get_max_seq_with_lock first_seq_conversation add_member upsert_member
    new_member del redis_key_group_members set_seq_user_min_seq gen_group_conversation_id ◌=ₜ◌ ◌+ℤ◌
    ◌-ℤ◌ find upsert
ann_fails = refl

club_id : club_chat ≡ gen_group_conversation_id club
unfolding gen_group_conversation_id
club_id = refl

-- The group some time later, with a second message.
abbrev later : State
later = record joined {
  db = record (joined.db) {
    messages = in_club (message (pos 1) (codes "m1")) ∷ in_club (message (pos 2) (codes "m2")) ∷ [];
    seq_conversations = seq_conversation club_chat (pos 2) ∷ [];
  };
}

abbrev news : List Message
news = in_club (message (pos 2) (codes "m2")) ∷ []

bob_sees_news : (pull_messages memory bob (everything club_chat) later).0 ≡ ok (news, pos 2)
unfolding join_group join_tx admit get_by_id first_group is_normal get_member first_member
    GroupMember.is_normal get_max_seq_with_lock first_seq_conversation add_member upsert_member
    new_member del redis_key_group_members set_seq_user_min_seq gen_group_conversation_id ◌=ₜ◌ ◌+ℤ◌
    ◌-ℤ◌ find upsert pull_messages pull_checked require_access check_conversation_access
    check_group_chat_access get_conversation_seq_info get_seq_user first_seq_user clamp_seq_range
    get_visible_range Message.pull_messages select_range order_by_seq insert_by_seq select
bob_sees_news = refl

join_group-IsJoined_example : IsJoined club bob ann one_club (memory.db joined)
join_group-IsJoined_example = join_group-IsJoined memory club bob ann start bob_joins

abbrev bobs_row : SeqUser
bobs_row = record {
  user_id = bob;
  conversation_id = club_chat;
  min_seq = pos 2;
  max_seq = pos 0;
  read_seq = pos 1;
}

bob_listed : find (of_user bob (gen_group_conversation_id club)) later.db.seq_users ≡ some bobs_row
unfolding join_group join_tx admit get_by_id first_group is_normal get_member first_member
    GroupMember.is_normal get_max_seq_with_lock first_seq_conversation add_member upsert_member
    new_member del redis_key_group_members set_seq_user_min_seq gen_group_conversation_id ◌=ₜ◌ ◌+ℤ◌
    ◌-ℤ◌ find upsert
bob_listed = refl

join_hides_history_example :
    All (λ (m : Message). newest_in club one_club <ℤ m.seq) news
    ⊎ (row_read memory bob (everything club_chat) later ≡ err refused)
join_hides_history_example =
    join_hides_history memory club bob ann start later bobs_row (everything club_chat) news (pos 2)
      bob_joins bob_listed (ap (Option.map (λ (r : SeqUser). r.min_seq)) (sym bob_listed)) club_id
      bob_sees_news

abbrev both : State
both = holding club_of_two

abbrev gone : State
gone = (quit_group memory club bob both).1

bob_quits : (quit_group memory club bob both).0 ≡ ok tt
unfolding quit_group quit_tx quit_checked leave get_member first_member GroupMember.is_normal
    is_owner get_max_seq_with_lock first_seq_conversation update_member_status set_member_status del
    redis_key_group_members set_seq_user_max_seq gen_group_conversation_id ◌=ₜ◌ find update
bob_quits = refl

quit_closes_group_example :
    (pull_messages memory bob (everything club_chat) gone).0 ≢ ok ([], pos 1)
quit_closes_group_example =
    quit_closes_group memory club bob both gone (everything club_chat) ([], pos 1) bob_quits refl
      club_id

ann_pulls :
    (pull_messages memory ann (everything club_chat) start).0
    ≡ ok (in_club (message (pos 1) (codes "m1")) ∷ [], pos 1)
unfolding pull_messages pull_checked require_access check_conversation_access
    check_group_chat_access get_member first_member GroupMember.is_normal get_conversation_seq_info
    first_seq_conversation get_seq_user first_seq_user clamp_seq_range get_visible_range
    Message.pull_messages select_range order_by_seq insert_by_seq ◌=ₜ◌ find select
ann_pulls = refl

join_group-joinable_example :
    ((join_group memory club bob ann start).0 ≡ ok tt) ↔ (joinable club bob one_club ≡ true)
join_group-joinable_example = join_group-joinable club bob ann one_club

quit_group-leavable_example :
    ((quit_group memory club bob both).0 ≡ ok tt) ↔ (leavable club bob club_of_two ≡ true)
quit_group-leavable_example = quit_group-leavable club bob club_of_two
