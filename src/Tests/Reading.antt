-- ===== src/Tests/Reading.antt =====
-- Runs of reading messages and of the checks on ids, contents and ranges.
use nexo_im.Base.{
  max_ℤ, is_some, =ₜ→ne, ◌≤ℤ◌, ◌≢◌, ◌≤◌, ◌↔◌, ◌⊎◌, select, length, update, All, cut, Lacks, pos,
  codes, ◌=ₜ◌, ◌<ₜ◌, ◌≡◌, refl, true, false, some, [], ◌∷◌, find, arith,
}
use nexo_im.Errors.{refused, ok, err}
use nexo_im.Entity.ConversationId.{colon, gen_single_conversation_id}
use nexo_im.Entity.ConversationId.Pairs.{
  gen_single_conversation_id_comm, gen_single_conversation_id_injective,
  gen_single_conversation_id_collision,
}
use nexo_im.Entity.Seq.{clamp_seq_range, get_visible_range}
use nexo_im.Entity.Message.Content.{FlatMessageContent, to_flat}
use nexo_im.Backend.Memory.{State, memory, holding}
use nexo_im.Repository.Seq.{
  first_seq_user, get_seq_user, get_conversation_seq_info, first_seq_conversation, update_read_seq,
  of_user,
}
use nexo_im.Repository.Seq
use nexo_im.Repository.Seq.ReadSeq.{row}
use nexo_im.Repository.Message
use nexo_im.Repository.Message.{select_range, order_by_seq, insert_by_seq}
use nexo_im.Repository.Message.Pull.{Ascending}
use nexo_im.Repository.Conversation.{of_owner, first_conversation, get_by_owner_and_conv_id}
use nexo_im.Service.Message.Content.{validate_message_content}
use nexo_im.Service.Message.Content.Kinds.{kinds, validate_message_content-kinds}
use nexo_im.Service.Message.Access.{
  check_single_chat_access, check_conversation_access, contains_user_id,
}
use nexo_im.Service.Message.Access.Participants.{
  check_single_chat_access-gen, check_single_chat_access-colon,
}
use nexo_im.Service.Message.Pull.{pull_messages, pull_checked, require_access}
use nexo_im.Service.Message.Pull.Visible.{pull_messages-Visible, Visible, row_read}
use nexo_im.Service.Message.Pull
use nexo_im.Service.Conversation.{mark_read, mark_up_to, require_conversation, readable}
use nexo_im.Service.Conversation.Reading.{mark_read-row, marked}
use nexo_im.Repository.Message.Whole.{FullBefore, pull_messages-Memᴰ}
use mathlib.Core.List.{Memᴰ}
use nexo_im.Tests.Data.{ann, bob, eve, chat, hello, message, seq_user, two_messages, everything}

abbrev start : State
start = holding two_messages

-- Bob pulls everything, and sees the second message only.
bob_pulls :
    (pull_messages memory bob (everything chat) start).0
    ≡ ok (message (pos 2) (codes "m2") ∷ [], pos 2)
unfolding pull_messages pull_checked require_access check_conversation_access
    check_single_chat_access contains_user_id get_conversation_seq_info first_seq_conversation
    get_seq_user first_seq_user clamp_seq_range get_visible_range Message.pull_messages select_range
    order_by_seq insert_by_seq ◌=ₜ◌ cut find select
bob_pulls = refl

bob_row : find (of_user bob chat) two_messages.seq_users ≡ some (seq_user bob chat)
unfolding ◌=ₜ◌ find
bob_row = refl

pull_messages-Visible_example :
    (All (λ m. m.conversation_id ≡ chat) (message (pos 2) (codes "m2") ∷ [])
      × All (Visible (seq_user bob chat) (pos 2)) (message (pos 2) (codes "m2") ∷ [])
      × Ascending (message (pos 2) (codes "m2") ∷ [])
      × (length (message (pos 2) (codes "m2") ∷ []) ≤ 100))
    ⊎ (row_read memory bob (everything chat) start ≡ err refused)
pull_messages-Visible_example =
    pull_messages-Visible memory bob (everything chat) start (seq_user bob chat)
      (message (pos 2) (codes "m2") ∷ []) (pos 2) bob_row bob_pulls

ann_plain : Lacks colon ann
ann_plain = ground arith

bob_plain : Lacks colon bob
bob_plain = ground arith

eve_plain : Lacks colon eve
eve_plain = ground arith

check_single_chat_access-gen_example :
    (check_single_chat_access bob (gen_single_conversation_id ann bob) ≡ true)
    ↔ ((bob ≡ ann) ⊎ (bob ≡ bob))
check_single_chat_access-gen_example = check_single_chat_access-gen ann bob bob ann_plain bob_plain

other_rest : codes "x:bob" ≢ codes "ann:x"
unfolding ◌=ₜ◌
other_rest = =ₜ→ne (codes "x:bob") (codes "ann:x") refl

colon_first : (codes "ann:x" <ₜ bob) ≡ true
unfolding ◌<ₜ◌
colon_first = refl

check_single_chat_access-colon_example :
    (check_single_chat_access ann (gen_single_conversation_id (codes "ann:x") bob) ≡ true)
    × (check_single_chat_access (codes "ann:x") (gen_single_conversation_id (codes "ann:x") bob)
        ≡ false)
check_single_chat_access-colon_example =
    check_single_chat_access-colon ann (codes "x") bob ann_plain colon_first other_rest

gen_single_conversation_id_injective_example :
    ((ann ≡ bob) × (bob ≡ ann)) ⊎ ((ann ≡ ann) × (bob ≡ bob))
gen_single_conversation_id_injective_example =
    gen_single_conversation_id_injective ann bob bob ann ann_plain bob_plain bob_plain ann_plain
      (gen_single_conversation_id_comm ann bob)

before_colon : (ann <ₜ codes "x:bob") ≡ true
unfolding ◌<ₜ◌
before_colon = refl

gen_single_conversation_id_collision_example :
    gen_single_conversation_id ann (codes "x:bob") ≡ gen_single_conversation_id (codes "ann:x") bob
gen_single_conversation_id_collision_example =
    gen_single_conversation_id_collision ann (codes "x") bob before_colon colon_first

validate_message_content-kinds_example :
    (validate_message_content (pos 1) hello ≡ ok tt) ↔ (kinds hello ≡ pos 1 ∷ [])
validate_message_content-kinds_example = validate_message_content-kinds (pos 1) hello

abbrev flat_hello : FlatMessageContent
flat_hello = to_flat hello

-- Bob marks the chat as read up to a number that is too large.
bob_marks : (mark_read memory bob chat (pos 7) start).0 ≡ ok tt
unfolding mark_read mark_up_to require_conversation get_by_owner_and_conv_id first_conversation
    get_conversation_seq_info first_seq_conversation readable update_read_seq first_seq_user ◌=ₜ◌
    find update
bob_marks = refl

mark_read-row_example :
    (pos 0 ≤ℤ pos 7)
    × (is_some (find (of_owner bob chat) two_messages.conversations) ≡ true)
    × (row memory (mark_read memory bob chat (pos 7) start).1 bob chat
        ≡ some (record (seq_user bob chat) {
          read_seq = max_ℤ (pos 1) (marked memory start chat (pos 7));
        }))
mark_read-row_example =
    mark_read-row memory bob chat (pos 7) start (seq_user bob chat) bob_row bob_marks

read_updated : (Seq.update_read_seq memory bob chat (pos 2) start).0 ≡ ok tt
unfolding Seq.update_read_seq first_seq_user ◌=ₜ◌ find update
read_updated = refl

first_page :
    (Message.pull_messages memory chat (pos 0) (pos 9) (pos 1) start).0
    ≡ ok (message (pos 1) (codes "m1") ∷ [])
unfolding Message.pull_messages select_range order_by_seq insert_by_seq ◌=ₜ◌ select
first_page = refl

-- The second message is behind a full page.
pull_messages-Memᴰ_example :
    Memᴰ (message (pos 2) (codes "m2")) (message (pos 1) (codes "m1") ∷ [])
    ⊎ FullBefore 1 (message (pos 2) (codes "m2")) (message (pos 1) (codes "m1") ∷ [])
pull_messages-Memᴰ_example =
    pull_messages-Memᴰ memory chat (pos 0) (pos 9) (pos 1) start (message (pos 1) (codes "m1") ∷ [])
      (message (pos 2) (codes "m2")) first_page (Memᴰ.head refl) (refl, omega arith, omega arith)
