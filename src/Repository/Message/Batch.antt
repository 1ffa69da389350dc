-- ===== src/Repository/Message/Batch.antt =====
-- internal/repository/message_repo.go: one message of each of several conversations, and the reads
-- that the services do not use yet.
use nexo_im.Base.{
  ◌==◌, ℤ, pos, pos_part, leb_ℤ, ltb_ℤ, eqb_ℤ, Text, ◌=ₜ◌, is_empty, not, Bool, true, false, ◌&&◌,
  ◌||◌, List, [], ◌∷◌, take, length, select, upsert, if◌then◌else◌,
}
use mathlib.Core.List.{reverse}
use nexo_im.Errors.{ok}
use nexo_im.Entity.Message.{Message}
use nexo_im.Backend.{Backend}
use nexo_im.Backend.Monad.{Action, pure, ◌>>=◌}
use nexo_im.Repository.Message.{at_seq, order_by_seq}

-- An entry of the map from conversations to sequence numbers.
pub record ConvSeq : Type 0 where
  pub conversation_id : Text
  pub seq : ℤ

abbrev is_asked : ConvSeq → Bool
is_asked p = not (is_empty p.conversation_id || leb_ℤ p.seq (pos 0))

-- (conversation_id = ? AND seq = ?) OR …
unfoldable pub any_at : List ConvSeq → Message → Bool
any_at [] m = false
any_at (p ∷ ps) m = at_seq p.conversation_id p.seq m || any_at ps m

-- `result[msg.ConversationId] = msg`, over the rows
unfoldable pub by_conversation : List Message → List Message → List Message
by_conversation result [] = result
by_conversation result (m ∷ ms) =
    by_conversation (upsert (λ r. r.conversation_id =ₜ m.conversation_id) (λ r. m) m result) ms

abbrev no_entries : List ConvSeq → Bool
no_entries [] = true
no_entries (p ∷ ps) = false

unfoldable pub seq_in : List ℤ → ℤ → Bool
seq_in [] n = false
seq_in (m ∷ ms) n = eqb_ℤ m n || seq_in ms n

abbrev latest_limit : ℤ → ℤ
latest_limit limit = if leb_ℤ limit (pos 0) || ltb_ℤ (pos 100) limit then pos 20 else limit

module _ (b : Backend) where
  open b use {World, exec}

  unfoldable pub batch_get_by_conv_seq : List ConvSeq → Action World (List Message)
  batch_get_by_conv_seq conv_max_seq =
      let asked = select is_asked conv_max_seq in
      if no_entries asked then pure [] else do
        messages ← exec (List Message) (λ d. (ok (select (any_at asked) d.messages), d))
        pure (by_conversation [] messages)

  unfoldable pub pull_messages_by_seq_list : Text → List ℤ → Action World (List Message)
  pull_messages_by_seq_list conversation_id seq_list =
      if length seq_list == 0
      then pure []
      else exec (List Message) (λ d. (
        ok (
            order_by_seq (
              select (λ m. m.conversation_id =ₜ conversation_id && seq_in (take 100 seq_list) m.seq)
                d.messages)),
        d,
      ))

  -- The newest first, then turned round.
  unfoldable pub get_latest_messages : Text → ℤ → Action World (List Message)
  get_latest_messages conversation_id limit = do
    messages ← exec (List Message) (λ d. (
      ok (
          take (pos_part (latest_limit limit)) (
            reverse
              (order_by_seq (select (λ m. m.conversation_id =ₜ conversation_id) d.messages)))),
      d,
    ))
    pure (reverse messages)

  unfoldable pub get_message_count_after_seq : Text → ℤ → Action World ℤ
  get_message_count_after_seq conversation_id seq = exec ℤ (λ d. (
    ok (
        pos (
          length
            (select (λ m. m.conversation_id =ₜ conversation_id && ltb_ℤ seq m.seq) d.messages))),
    d,
  ))
