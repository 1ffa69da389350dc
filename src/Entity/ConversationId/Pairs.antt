-- ===== src/Entity/ConversationId/Pairs.antt =====
-- Which pairs of users internal/entity/base.go gives one conversation id.
use nexo_im.Base.{
  Text, ◌<ₜ◌, <ₜ_asymm, <ₜ_total, Lacks, cut, cut-append, ◌≡◌, ◌⊎◌, ◌++◌, ◌∷◌, true, arith, drop,
  ap, some,
}
use nexo_im.Entity.ConversationId.{colon, joined, gen_single_conversation_id}
use mathlib.Core.List.{append_assoc}

-- Both parties compute the same conversation id.
pub gen_single_conversation_id_comm :
    (a b : Text) → gen_single_conversation_id a b ≡ gen_single_conversation_id b a
unfolding gen_single_conversation_id
gen_single_conversation_id_comm a b = ground (arith, <ₜ_asymm a b, <ₜ_asymm b a, <ₜ_total a b)

joined-cut : (p : Text × Text) → Lacks colon p.0 → cut colon (joined p) ≡ some p
joined-cut (a, b) h = cut-append colon a b h

-- Where no user id has a colon, one conversation id stands for one pair of users.
pub gen_single_conversation_id_injective :
    (a b c d : Text)
    → Lacks colon a
    → Lacks colon b
    → Lacks colon c
    → Lacks colon d
    → gen_single_conversation_id a b ≡ gen_single_conversation_id c d
    → ((a ≡ c) × (b ≡ d)) ⊎ ((a ≡ d) × (b ≡ c))
unfolding gen_single_conversation_id
gen_single_conversation_id_injective a b c d ha hb hc hd e = ground (
  arith,
  ap (λ (t : Text). cut colon (drop 3 t)) e,
  cut-append colon a b ha,
  cut-append colon b a hb,
  cut-append colon c d hc,
  cut-append colon d c hd,
)

-- With colons in user ids two pairs can share a conversation: `x` with `y:z`, and `x:y` with `z`,
-- where the ids of each pair stand in that order.
pub gen_single_conversation_id_collision :
    (x y z : Text)
    → (x <ₜ (y ++ (colon ∷ z))) ≡ true
    → ((x ++ (colon ∷ y)) <ₜ z) ≡ true
    → gen_single_conversation_id x (y ++ (colon ∷ z))
      ≡ gen_single_conversation_id (x ++ (colon ∷ y)) z
unfolding gen_single_conversation_id
gen_single_conversation_id_collision x y z h k = ground (
  arith,
  <ₜ_asymm x (y ++ (colon ∷ z)) h,
  <ₜ_asymm (x ++ (colon ∷ y)) z k,
  append_assoc x (colon ∷ y) (colon ∷ z),
)
