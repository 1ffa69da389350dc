-- ===== src/Service/History.antt =====
-- Groups and messages together (internal/service): what a new member, and one who has left, can
-- pull.
use nexo_im.Base.{
  find, some, ℤ, pos, ◌+ℤ◌, ◌<ℤ◌, Text, ◌≡◌, ◌≢◌, ◌⊎◌, inl, inr, List, All, All-map, arith,
}
use mathlib.Core.Option
use nexo_im.Errors.{refused, ok, err}
use nexo_im.Entity.ConversationId.{gen_group_conversation_id}
use nexo_im.Entity.GroupMember
use nexo_im.Entity.GroupMember.{GroupMember}
use nexo_im.Entity.Message.{Message}
use nexo_im.Entity.Seq.{SeqUser, get_visible_range}
use nexo_im.Backend.{Backend}
use nexo_im.Repository.Seq.{of_user}
use nexo_im.Repository.Group.{of_member}
use nexo_im.Service.Message.Pull.{PullMessagesRequest, pull_messages}
use nexo_im.Service.Message.Pull.Visible.{
  Visible, row_read, pull_messages-Visible, pull_messages-member,
}
use nexo_im.Service.Group.{join_group, quit_group}
use nexo_im.Service.Group.Membership.{newest_in}
use nexo_im.Service.Group.Membership.Joining.{join_group-IsJoined}
use nexo_im.Service.Group.Membership.Leaving.{quit_group-IsLeft}

above_of_visible :
    (r : SeqUser) (k n : ℤ) (m : Message) → r.min_seq ≡ k +ℤ pos 1 → Visible r n m → k <ℤ m.seq
unfolding get_visible_range ◌+ℤ◌
above_of_visible r k n m e v = ground arith

module _ (b : Backend) where
  open b use {World, db}

  -- What a user who has joined a group pulls of it later, while their row in seq_users has the lower
  -- end that the join gave it, whatever else of the row has changed, came after the join: its numbers
  -- are above the one that was the newest then; unless the pull's own read of the user's row failed,
  -- an error that the code passes over.
  pub join_hides_history :
      (g u i : Text) (w v : World) (r : SeqUser) (req : PullMessagesRequest) (ms : List Message)
      (n : ℤ)
      → (join_group b g u i w).0 ≡ ok tt
      → find (of_user u (gen_group_conversation_id g)) (db v).seq_users ≡ some r
      → some r.min_seq
        ≡ Option.map
            (λ (s : SeqUser). s.min_seq)
            (find (of_user u (gen_group_conversation_id g)) (db (join_group b g u i w).1).seq_users)
      → req.conversation_id ≡ gen_group_conversation_id g
      → (pull_messages b u req v).0 ≡ ok (ms, n)
      → All (λ m. newest_in g (db w) <ℤ m.seq) ms ⊎ (row_read b u req v ≡ err refused)
  join_hides_history g u i w v r req ms n joined present same conv pulled =
      let j = join_group-IsJoined b g u i w joined in
      elim (pull_messages-Visible b u req v r ms n (ground (arith, present)) pulled) [
        | inr failed ↦ inr failed
        | inl (_, seen, _, _) ↦
            let lower : r.min_seq ≡ newest_in g (db w) +ℤ pos 1 = ground (arith, j.row) in
            inl (
              All-map (Visible r n) (λ m. newest_in g (db w) <ℤ m.seq) ms
                (λ m k. above_of_visible r (newest_in g (db w)) n m lower k) seen)
      ]

  -- Whoever has left a group can pull nothing of it while their row in group_members is as the quit
  -- left it.
  pub quit_closes_group :
      (g u : Text) (w v : World) (req : PullMessagesRequest) (a : List Message × ℤ)
      → (quit_group b g u w).0 ≡ ok tt
      → find (of_member g u) (db v).members
        ≡ find (of_member g u) (db (quit_group b g u w).1).members
      → req.conversation_id ≡ gen_group_conversation_id g
      → (pull_messages b u req v).0 ≢ ok a
  unfolding GroupMember.is_normal
  quit_closes_group g u w v req a left same conv pulled =
      let l = quit_group-IsLeft b g u w left in
      let (m, present, status) = pull_messages-member b u g req v a conv pulled in
      ground (arith, l.closed.left)
