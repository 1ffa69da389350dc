-- ===== src/Service/Message/Content/Kinds.antt =====
-- Which contents internal/service/message_service.go accepts for which type of message, and the
-- round trip of internal/entity/message.go between the two forms of content.
use nexo_im.Base.{
  ℤ, pos, [], ◌∷◌, is_empty, not, is_some, List, Bool, if◌then◌else◌, ◌≡◌, ◌↔◌, arith,
}
use nexo_im.Errors.{ok}
use nexo_im.Entity.Message.Content.{
  MessageContent, FlatMessageContent, payload_count, new_message_content_from_flat, to_flat,
}
use nexo_im.Service.Message.Content.{validate_message_content}

abbrev listed : Bool → ℤ → List ℤ → List ℤ
listed b kind kinds = if b then kind ∷ kinds else kinds

-- The message types whose payloads a content carries.
abbrev pub kinds : MessageContent → List ℤ
kinds c = listed (is_some c.text) (pos 1) (
    listed (is_some c.image) (pos 2) (
      listed (is_some c.video) (pos 3) (
        listed (is_some c.audio) (pos 4)
          (listed (is_some c.file) (pos 5) (listed (not (is_empty c.custom)) (pos 100) [])))))

-- A content is accepted exactly when it carries one payload and that is the payload of the
-- message's type.
pub validate_message_content-kinds :
    (t : ℤ) (c : MessageContent) → (validate_message_content t c ≡ ok tt) ↔ (kinds c ≡ t ∷ [])
unfolding validate_message_content payload_count
validate_message_content-kinds t c = (λ h. ground arith, λ h. ground arith)

-- A flat content comes back from the typed one that is built of it.
pub to_flat-new_message_content_from_flat :
    (c : FlatMessageContent) → to_flat (new_message_content_from_flat c) ≡ c
unfolding to_flat new_message_content_from_flat
to_flat-new_message_content_from_flat c = ground arith
