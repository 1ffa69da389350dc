-- ===== src/Service/Message/Pull.antt =====
-- internal/service/message_service.go: reading messages and sequence numbers, with the check of
-- access.
pub mod Visible
pub mod Strangers
use nexo_im.Base.{
  ℤ, pos, eqb_ℤ, leb_ℤ, ltb_ℤ, Text, not, Bool, ◌||◌, Option, none, some, List, [], if◌then◌else◌,
}
use nexo_im.Errors.{Failure, code, internal_server, no_permission, pull_failed, Result, ok, err}
use nexo_im.Entity.Seq.{SeqConversation, SeqUser, clamp_seq_range}
use nexo_im.Entity.Message.{Message}
use nexo_im.Backend.{Backend}
use nexo_im.Backend.Monad.{Action, pure, ◌>>=◌, ◌>>◌, attempt, or_fail, fail_if}
use nexo_im.Repository.Seq.{get_conversation_seq_info, get_seq_user}
use nexo_im.Repository.Seq
use nexo_im.Repository.Message
use nexo_im.Repository.Message.{capped}
use nexo_im.Service.Message.Access.{check_conversation_access}

pub record PullMessagesRequest : Type 0 where
  pub conversation_id : Text
  pub begin_seq : ℤ
  pub end_seq : ℤ
  pub limit : ℤ

-- The range that is pulled: without an end it goes to the newest message, and the user's row, where
-- it was read, clamps it.
abbrev clamped : Result (Option SeqUser) → ℤ → ℤ → ℤ → ℤ × ℤ
clamped (ok (some seq_user)) begin_seq end_seq max_seq =
    clamp_seq_range seq_user begin_seq end_seq max_seq
clamped (ok none) begin_seq end_seq max_seq = (begin_seq, end_seq)
clamped (err _) begin_seq end_seq max_seq = (begin_seq, end_seq)

abbrev pub requested_end : PullMessagesRequest → ℤ → ℤ
requested_end req max_seq = if eqb_ℤ req.end_seq (pos 0) then max_seq else req.end_seq

abbrev pub pull_range : Result (Option SeqUser) → PullMessagesRequest → ℤ → ℤ × ℤ
pull_range seq_user req max_seq = clamped seq_user req.begin_seq (requested_end req max_seq) max_seq

module _ (b : Backend) where
  open b use {World}

  unfoldable pub pull_checked : Text → PullMessagesRequest → Action World (List Message × ℤ)
  pull_checked user_id req = do
    conv_seq ← or_fail (get_conversation_seq_info b req.conversation_id) (code internal_server)
    seq_user ← attempt (get_seq_user b user_id req.conversation_id)
    let range = pull_range seq_user req conv_seq.max_seq
    if ltb_ℤ range.1 range.0 then pure ([], conv_seq.max_seq) else do
      messages ←
          or_fail (Message.pull_messages b req.conversation_id range.0 range.1 (capped req.limit))
            (code pull_failed)
      pure (messages, conv_seq.max_seq)

  unfoldable pub require_access : Text → Text → Action World (Unit {0})
  require_access user_id conversation_id = do
    has_access ←
        or_fail (check_conversation_access b user_id conversation_id) (code internal_server)
    fail_if (not has_access) (code no_permission)

  unfoldable pub pull_messages : Text → PullMessagesRequest → Action World (List Message × ℤ)
  pull_messages user_id req = do
    require_access user_id req.conversation_id
    pull_checked user_id req

  unfoldable pub get_max_seq : Text → Text → Action World ℤ
  get_max_seq user_id conversation_id = do
    require_access user_id conversation_id
    Seq.get_max_seq b conversation_id

  unfoldable pub update_read_seq : Text → Text → ℤ → Action World (Unit {0})
  update_read_seq user_id conversation_id read_seq = do
    require_access user_id conversation_id
    Seq.update_read_seq b user_id conversation_id read_seq
