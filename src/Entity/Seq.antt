-- ===== src/Entity/Seq.antt =====
-- internal/entity/seq.go: sequence numbers of a conversation, and what of it a user may see.
pub mod Range
use nexo_im.Base.{ℤ, pos, Text, ltb_ℤ, ◌&&◌, if◌then◌else◌}

pub record SeqConversation : Type 0 where
  pub conversation_id : Text
  pub max_seq : ℤ
  pub min_seq : ℤ

pub record SeqUser : Type 0 where
  pub user_id : Text
  pub conversation_id : Text
  pub min_seq : ℤ
  pub max_seq : ℤ
  pub read_seq : ℤ

unfoldable pub get_visible_range : SeqUser → ℤ → ℤ × ℤ
get_visible_range s conv_max_seq = (
  s.min_seq,
  if ltb_ℤ (pos 0) s.max_seq && ltb_ℤ s.max_seq conv_max_seq then s.max_seq else conv_max_seq,
)

unfoldable pub clamp_seq_range : SeqUser → ℤ → ℤ → ℤ → ℤ × ℤ
unfolding get_visible_range
clamp_seq_range s begin_seq end_seq conv_max_seq =
    let (min_visible, max_visible) = get_visible_range s conv_max_seq in
    (
      (if ltb_ℤ begin_seq min_visible then min_visible else begin_seq),
      if ltb_ℤ max_visible end_seq then max_visible else end_seq,
    )
