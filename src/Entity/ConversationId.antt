-- ===== src/Entity/ConversationId.antt =====
-- internal/entity/base.go: the ids of conversations.
pub mod Pairs
use nexo_im.Base.{
  ℕ, ◌≤◌, Text, codes, ◌=ₜ◌, ◌<ₜ◌, Bool, ◌&&◌, ◌++◌, ◌∷◌, if◌then◌else◌, ltb, length, take,
}

abbrev pub colon : ℕ
colon = b':'

abbrev pub single_conversation_prefix : Text
single_conversation_prefix = codes "si_"

abbrev pub group_conversation_prefix : Text
group_conversation_prefix = codes "sg_"

-- sort.Strings of two
abbrev pub sorted_pair : Text → Text → Text × Text
sorted_pair a b = if b <ₜ a then (b, a) else (a, b)

abbrev pub joined : Text × Text → Text
joined (a, b) = a ++ (colon ∷ b)

unfoldable pub gen_single_conversation_id : Text → Text → Text
gen_single_conversation_id user_a user_b =
    single_conversation_prefix ++ joined (sorted_pair user_a user_b)

unfoldable pub gen_group_conversation_id : Text → Text
gen_group_conversation_id group_id = group_conversation_prefix ++ group_id

-- `conversationId[:3]` is read only where it is in range.
unfoldable pub is_single_conversation : Text → Bool
is_single_conversation c = ltb 3 (length c) && take 3 c =ₜ single_conversation_prefix

unfoldable pub is_group_conversation : Text → Bool
is_group_conversation c = ltb 3 (length c) && take 3 c =ₜ group_conversation_prefix
