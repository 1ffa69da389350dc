-- ===== src/Service/Conversation.antt =====
-- internal/service/conversation_service.go: one conversation of a user, its settings and how far the
-- user has read it. The calls that page through the list of conversations are not modelled.
pub mod Reading
pub mod Pages
use nexo_im.Base.{
  ℤ, pos, ◌-ℤ◌, ltb_ℤ, Text, Bool, Option, none, some, is_some, not, ◌&&◌, if◌then◌else◌,
}
use nexo_im.Errors.{Failure, code, internal_server, invalid_param, conv_not_found, Result, ok, err}
use nexo_im.Entity.Conversation.{Conversation}
use nexo_im.Entity.Seq.{SeqConversation, SeqUser}
use nexo_im.Backend.{Backend}
use nexo_im.Backend.Monad.{Action, pure, fail, ◌>>=◌, ◌>>◌, attempt, or_fail, fail_if}
use nexo_im.Repository.Conversation.{Updates, get_by_owner_and_conv_id, update_settings}
use nexo_im.Repository.Seq.{get_conversation_seq_info, get_seq_user}
use nexo_im.Repository.Seq

-- The conversation's own fields are those of the row that was read.
pub record ConversationInfo : Type 0 where
  pub conversation : Conversation
  pub unread_count : ℤ
  pub max_seq : ℤ
  pub read_seq : ℤ

-- `maxSeq` and `readSeq` stay 0 where the row was not read.
abbrev pub known_max : Result SeqConversation → ℤ
known_max (ok s) = s.max_seq
known_max (err _) = pos 0

abbrev pub known_read : Result (Option SeqUser) → ℤ
known_read (ok (some s)) = s.read_seq
known_read (ok none) = pos 0
known_read (err _) = pos 0

abbrev pub at_least_zero : ℤ → ℤ
at_least_zero n = if ltb_ℤ n (pos 0) then pos 0 else n

unfoldable pub unread : ℤ → ℤ → ℤ
unread max_seq read_seq = at_least_zero (max_seq -ℤ read_seq)

-- What `MarkRead` makes of the number that the client names.
unfoldable pub readable : ℤ → ℤ → ℤ
readable max_seq read_seq =
    let max_readable_seq = at_least_zero max_seq in
    if ltb_ℤ max_readable_seq read_seq then max_readable_seq else read_seq

module _ (b : Backend) where
  open b use {World}

  abbrev present : Option Conversation → Action World Conversation
  present (some c) = pure c
  present none = fail (code conv_not_found)

  -- GetByOwnerAndConvId, and its two errors
  unfoldable pub require_conversation : Text → Text → Action World Conversation
  require_conversation user_id conversation_id = do
    conv ← or_fail (get_by_owner_and_conv_id b user_id conversation_id) (code internal_server)
    present conv

  unfoldable pub get_conversation : Text → Text → Action World ConversationInfo
  get_conversation user_id conversation_id = do
    conv ← require_conversation user_id conversation_id
    seq_conv ← attempt (get_conversation_seq_info b conversation_id)
    seq_user ← attempt (get_seq_user b user_id conversation_id)
    pure (record {
      conversation = conv;
      unread_count = unread (known_max seq_conv) (known_read seq_user);
      max_seq = known_max seq_conv;
      read_seq = known_read seq_user;
    })

  unfoldable pub update_conversation : Text → Text → Updates → Action World (Unit {0})
  update_conversation user_id conversation_id req =
      if not (is_some req.recv_msg_opt) && not (is_some req.is_pinned)
      then pure tt
      else or_fail (update_settings b user_id conversation_id req) (code internal_server)

  unfoldable pub mark_up_to : Text → Text → ℤ → Action World (Unit {0})
  mark_up_to user_id conversation_id read_seq = do
    seq_conv ← or_fail (get_conversation_seq_info b conversation_id) (code internal_server)
    or_fail (Seq.update_read_seq b user_id conversation_id (readable seq_conv.max_seq read_seq))
        (code internal_server)

  unfoldable pub mark_read : Text → Text → ℤ → Action World (Unit {0})
  mark_read user_id conversation_id read_seq = do
    fail_if (ltb_ℤ read_seq (pos 0)) (code invalid_param)
    require_conversation user_id conversation_id
    mark_up_to user_id conversation_id read_seq

  unfoldable pub get_max_read_seq : Text → Text → Action World (ℤ × ℤ)
  get_max_read_seq user_id conversation_id = do
    seq_conv ← get_conversation_seq_info b conversation_id
    seq_user ← attempt (get_seq_user b user_id conversation_id)
    pure (seq_conv.max_seq, known_read seq_user)
