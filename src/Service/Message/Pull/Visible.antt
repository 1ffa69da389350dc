-- ===== src/Service/Message/Pull/Visible.antt =====
-- What internal/service/message_service.go lets a user read.
use nexo_im.Base.{
  Option-cases, ◌≤◌, ℤ, pos_part, Text, ◌≡◌, ◌⊎◌, inl, inr, true, Option, some, List, find, subst,
  ◌=ₜ◌, select, length, length-take, All, All-take, All-map, arith,
}
use nexo_im.Errors.{Result, ok, err, refused}
use nexo_im.Entity.Seq.{SeqConversation, SeqUser, get_visible_range, clamp_seq_range}
use nexo_im.Entity.Seq.Range.{Within, clamp_seq_range-Within}
use nexo_im.Entity.Message.{Message}
use nexo_im.Entity.GroupMember
use nexo_im.Entity.Group.{group_member_status_normal}
use nexo_im.Entity.ConversationId.{gen_group_conversation_id}
use nexo_im.Entity.GroupMember.{GroupMember}
use nexo_im.Backend.{Backend}
use nexo_im.Backend.Leaves.{reading, Leaves, leaves}
use nexo_im.Repository.Seq.{
  of_user, first_seq_user, first_seq_conversation, get_seq_user, get_conversation_seq_info,
}
use nexo_im.Repository.Message
use nexo_im.Repository.Message.{in_range, select_range, order_by_seq, capped}
use nexo_im.Repository.Message.Pull.{
  Ascending, InRange, order_by_seq-All, order_by_seq-Ascending, take-Ascending, select-InRange,
}
use nexo_im.Repository.Group.{of_member, first_member, get_member}
use nexo_im.Service.Message.Access.{check_group_chat_access, check_conversation_access}
use nexo_im.Service.Message.Pull.{
  PullMessagesRequest, pull_range, requested_end, require_access, pull_checked, pull_messages,
}

-- A page of messages: of the conversation, in the range, in order, and 100 at most.
pub record IsPage (c : Text) (lo hi : ℤ) (ms : List Message) : Type 0 where
  pub inside : All (InRange c lo hi) ms
  pub ascending : Ascending ms
  pub short : length ms ≤ 100

-- A message that the user's row lets them see.
abbrev pub Visible : SeqUser → ℤ → Message → Type 0
Visible r max_seq m = Within (get_visible_range r max_seq) m.seq

page-Visible :
    (c : Text) (r : SeqUser) (lo hi n : ℤ) (ms : List Message)
    → All (InRange c (clamp_seq_range r lo hi n).0 (clamp_seq_range r lo hi n).1) ms
    → All (Visible r n) ms
page-Visible c r lo hi n ms h =
    All-map (InRange c (clamp_seq_range r lo hi n).0 (clamp_seq_range r lo hi n).1) (Visible r n) ms
      (λ m k. ((clamp_seq_range-Within r lo hi n m.seq).0 (k.1, k.2)).1) h

module _ (b : Backend) where
  open b use {World, db, exec_lem}

  pub pull-IsPage :
      (c : Text) (lo hi n : ℤ) (w : World) (ms : List Message)
      → (Message.pull_messages b c lo hi n w).0 ≡ ok ms
      → IsPage c lo hi ms
  unfolding Message.pull_messages select_range
  pull-IsPage c lo hi n w ms h = ground (
    arith,
    exec_lem (List Message) (select_range c lo hi (capped n)) w,
    All-take (InRange c lo hi) (pos_part (capped n))
        (order_by_seq (select (in_range c lo hi) (db w).messages))
        (order_by_seq-All (InRange c lo hi) (select (in_range c lo hi) (db w).messages)
          (select-InRange c lo hi (db w).messages)),
    take-Ascending (pos_part (capped n)) (order_by_seq (select (in_range c lo hi) (db w).messages))
        (order_by_seq-Ascending (select (in_range c lo hi) (db w).messages)),
    length-take (pos_part (capped n)) (order_by_seq (select (in_range c lo hi) (db w).messages)),
  )

  get_seq_user_cases :
      (u c : Text) (w : World)
      → (((get_seq_user b u c w).0 ≡ ok (find (of_user u c) (db w).seq_users))
          ⊎ ((get_seq_user b u c w).0 ≡ err refused))
        × (db (get_seq_user b u c w).1 ≡ db w)
  unfolding get_seq_user first_seq_user
  get_seq_user_cases u c w = ground (arith, exec_lem SeqUser (first_seq_user u c) w)

  info_reads : (c : Text) → Leaves (reading b) (get_conversation_seq_info b c)
  unfolding get_conversation_seq_info first_seq_conversation
  info_reads c = record {
    at = λ w. ground (arith, exec_lem SeqConversation (first_seq_conversation c) w);
  }

  pull_checked-IsPage :
      (u : Text) (req : PullMessagesRequest) (w : World) (ms : List Message) (n : ℤ)
      → (pull_checked b u req w).0 ≡ ok (ms, n)
      → let w₁ = (get_conversation_seq_info b req.conversation_id w).1 in
        let range = pull_range (get_seq_user b u req.conversation_id w₁).0 req n in
        IsPage req.conversation_id range.0 range.1 ms
  unfolding pull_checked
  pull_checked-IsPage u req w ms n h =
      let w₁ = (get_conversation_seq_info b req.conversation_id w).1 in
      let range = pull_range (get_seq_user b u req.conversation_id w₁).0 req n in
      ground (
        arith,
        pull-IsPage req.conversation_id range.0 range.1 (capped req.limit)
            (get_seq_user b u req.conversation_id w₁).1 ms,
      )

  member_reads : (g u : Text) → Leaves (reading b) (get_member b g u)
  unfolding get_member first_member
  member_reads g u = record { at = λ w. ground (arith, exec_lem GroupMember (first_member g u) w) }

  group_access_reads : (u g : Text) → Leaves (reading b) (check_group_chat_access b u g)
  unfolding check_group_chat_access
  group_access_reads u g = search (leaves, member_reads) depth 8

  access_reads : (u c : Text) → Leaves (reading b) (check_conversation_access b u c)
  unfolding check_conversation_access
  access_reads u c = search (leaves, group_access_reads) depth 8

  require_access_reads : (u c : Text) → Leaves (reading b) (require_access b u c)
  unfolding require_access
  require_access_reads u c = search (leaves, access_reads) depth 8

  -- What the read of the user's row answers within a pull that is called in the world `w`.
  abbrev pub row_read : Text → PullMessagesRequest → World → Result (Option SeqUser)
  row_read u req w =
      let c = req.conversation_id in
      (get_seq_user b u c (get_conversation_seq_info b c (require_access b u c w).1).1).0

  -- What a user who has a row in seq_users pulls lies in the conversation and in the user's visible
  -- range, ascends, and is 100 messages at most; unless this pull's own read of the row failed, an
  -- error that the code passes over.
  pub pull_messages-Visible :
      (u : Text) (req : PullMessagesRequest) (w : World) (r : SeqUser) (ms : List Message) (n : ℤ)
      → find (of_user u req.conversation_id) (db w).seq_users ≡ some r
      → (pull_messages b u req w).0 ≡ ok (ms, n)
      → (All (λ m. m.conversation_id ≡ req.conversation_id) ms
          × All (Visible r n) ms
          × Ascending ms
          × (length ms ≤ 100))
        ⊎ (row_read u req w ≡ err refused)
  unfolding pull_messages
  pull_messages-Visible u req w r ms n e h =
      let c = req.conversation_id in
      let w₁ = (require_access b u c w).1 in
      let w₂ = (get_conversation_seq_info b c w₁).1 in
      elim (get_seq_user_cases u c w₂).0 [
        | inr failed ↦ inr failed
        | inl row ↦
            let seen : (get_seq_user b u c w₂).0 ≡ ok (some r) =
              ground (arith, (require_access_reads u c).at w, (info_reads c).at w₁) in
            let page : IsPage c (pull_range (ok (some r)) req n).0
                (pull_range (ok (some r)) req n).1 ms =
              subst (λ s. IsPage c (pull_range s req n).0 (pull_range s req n).1 ms) seen
                (pull_checked-IsPage u req w₁ ms n (ground arith)) in
            inl (
              All-map
                  (InRange c (pull_range (ok (some r)) req n).0 (pull_range (ok (some r)) req n).1)
                  (λ m. m.conversation_id ≡ c) ms (λ m k. k.0) page.inside,
              page-Visible c r req.begin_seq (requested_end req n) n ms page.inside,
              page.ascending,
              page.short,
            )
      ]

  require_access_granted :
      (u c : Text) (w : World) (x : Unit {0})
      → (require_access b u c w).0 ≡ ok x
      → (check_conversation_access b u c w).0 ≡ ok true
  unfolding require_access
  require_access_granted u c w x h = ground arith

  access-gen_group :
      (u g : Text) (w : World)
      → check_conversation_access b u (gen_group_conversation_id g) w
        ≡ check_group_chat_access b u g w
  unfolding check_conversation_access gen_group_conversation_id ◌=ₜ◌
  access-gen_group u g w = ground arith

  group_access_granted :
      (u g : Text) (w : World)
      → (check_group_chat_access b u g w).0 ≡ ok true
      → (m : GroupMember) × (find (of_member g u) (db w).members ≡ some m)
        × (m.status ≡ group_member_status_normal)
  unfolding check_group_chat_access get_member first_member GroupMember.is_normal
  group_access_granted u g w h = elim (Option-cases (find (of_member g u) (db w).members)) [
    | inl absent ↦ absurd (ground (arith, exec_lem GroupMember (first_member g u) w))
    | inr (m, present) ↦ (m, present, ground (arith, exec_lem GroupMember (first_member g u) w))
  ]

  -- Whoever reads a group's messages is a member of it with the status "normal".
  pub pull_messages-member :
      (u g : Text) (req : PullMessagesRequest) (w : World) (a : List Message × ℤ)
      → req.conversation_id ≡ gen_group_conversation_id g
      → (pull_messages b u req w).0 ≡ ok a
      → (m : GroupMember) × (find (of_member g u) (db w).members ≡ some m)
        × (m.status ≡ group_member_status_normal)
  unfolding pull_messages
  pull_messages-member u g req w a e h =
      group_access_granted u g w
        (ground (arith, require_access_granted u req.conversation_id w tt, access-gen_group u g w))
