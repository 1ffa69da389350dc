-- ===== src/Service/Conversation/Reading.antt =====
-- What marking a conversation as read stores, and what is then counted as unread, by the methods of
-- internal/service/conversation_service.go.
use nexo_im.Base.{
  eq_of_parts, min_ℤ, ℤ, pos, ◌≤ℤ◌, max_ℤ, Text, ◌≡◌, refl, ◌⊎◌, true, Option, none, some, is_some,
  find, arith,
}
use nexo_im.Service.Group.Calls.{newest}
use nexo_im.Errors.{refused, code, internal_server, conv_not_found, ok, err, is_ok}
use nexo_im.Entity.Conversation.{Conversation}
use nexo_im.Entity.Seq.{SeqConversation, SeqUser}
use nexo_im.Backend.{Backend}
use nexo_im.Repository.Conversation.{of_owner, first_conversation, get_by_owner_and_conv_id}
use nexo_im.Repository.Seq.{of_conversation, first_seq_conversation, get_conversation_seq_info}
use nexo_im.Repository.Seq.ReadSeq.{row, update_read_seq-row}
use nexo_im.Service.Conversation.{
  at_least_zero, readable, require_conversation, mark_up_to, mark_read,
}

pub readable_bounds :
    (m n : ℤ)
    → pos 0 ≤ℤ n
    → (readable m n ≤ℤ n) × (readable m n ≤ℤ at_least_zero m) × (pos 0 ≤ℤ readable m n)
unfolding readable
readable_bounds m n h = ground arith

-- The clamp of `MarkRead` is a minimum.
readable-min_ℤ : (m n : ℤ) → readable m n ≡ min_ℤ n (max_ℤ (pos 0) m)
unfolding readable min_ℤ max_ℤ
readable-min_ℤ m n = ground (arith, eq_of_parts m (pos 0))

module _ (b : Backend) where
  open b use {World, db, exec, exec_lem}

  abbrev pub info : Text → Option SeqConversation → SeqConversation
  info c none = record { conversation_id = c; max_seq = pos 0; min_seq = pos 0 }
  info c (some s) = s

  pub info_cases :
      (c : Text) (w : World)
      → (((get_conversation_seq_info b c w).0 ≡ err refused)
          ⊎ ((get_conversation_seq_info b c w).0
              ≡ ok (info c (find (of_conversation c) (db w).seq_conversations))))
        × (db (get_conversation_seq_info b c w).1 ≡ db w)
  unfolding get_conversation_seq_info first_seq_conversation
  info_cases c w = ground (arith, exec_lem SeqConversation (first_seq_conversation c) w)

  require_cases :
      (u c : Text) (w : World)
      → ((((require_conversation b u c w).0 ≡ err (code internal_server))
            ⊎ (((require_conversation b u c w).0 ≡ err (code conv_not_found))
                × (find (of_owner u c) (db w).conversations ≡ none)))
          ⊎ ((is_ok (require_conversation b u c w).0 ≡ true)
              × (is_some (find (of_owner u c) (db w).conversations) ≡ true)))
        × (db (require_conversation b u c w).1 ≡ db w)
  unfolding require_conversation get_by_owner_and_conv_id first_conversation
  require_cases u c w = ground (arith, exec_lem Conversation (first_conversation u c) w)

  -- The number of the newest message, not below 0.
  abbrev pub end_of : World → Text → ℤ
  end_of w c = max_ℤ (pos 0) (newest (find (of_conversation c) (db w).seq_conversations))

  -- The number that is stored.
  abbrev pub marked : World → Text → ℤ → ℤ
  marked w c n = min_ℤ n (end_of w c)

  pub newest-info : (c : Text) (o : Option SeqConversation) → (info c o).max_seq ≡ newest o
  newest-info c none = refl
  newest-info c (some s) = refl

  mark_up_to-row :
      (u c : Text) (n : ℤ) (w : World) (r : SeqUser)
      → row b w u c ≡ some r
      → (mark_up_to b u c n w).0 ≡ ok tt
      → row b (mark_up_to b u c n w).1 u c
        ≡ some (record r { read_seq = max_ℤ r.read_seq (marked w c n) })
  unfolding mark_up_to
  mark_up_to-row u c n w r e h = ground (
    arith,
    info_cases c w,
    newest-info c (find (of_conversation c) (db w).seq_conversations),
    readable-min_ℤ (newest (find (of_conversation c) (db w).seq_conversations)) n,
    update_read_seq-row b u c (marked w c n) (get_conversation_seq_info b c w).1 r,
  )

  -- Marking a conversation as read up to a number, where the user has a row of it: if it returns
  -- without an error the number is not below 0, the user has the conversation, and the row's
  -- read_seq becomes the greater of what it was and the lesser of the number and the newest message's.
  pub mark_read-row :
      (u c : Text) (n : ℤ) (w : World) (r : SeqUser)
      → row b w u c ≡ some r
      → (mark_read b u c n w).0 ≡ ok tt
      → (pos 0 ≤ℤ n)
        × (is_some (find (of_owner u c) (db w).conversations) ≡ true)
        × (row b (mark_read b u c n w).1 u c
            ≡ some (record r { read_seq = max_ℤ r.read_seq (marked w c n) }))
  unfolding mark_read
  mark_read-row u c n w r e h =
      let w₁ = (require_conversation b u c w).1 in
      ground (arith, require_cases u c w, mark_up_to-row u c n w₁ r)
