-- ===== src/Service/Message/Access/Participants.antt =====
-- Whom the access check of internal/service/message_service.go lets in.
use nexo_im.Base.{
  ℕ, Text, codes, ◌=ₜ◌, =ₜ→eq, =ₜ_refl, ◌<ₜ◌, <ₜ_asymm, Lacks, cut-append, ◌≡◌, ◌≢◌, ◌⊎◌, ◌↔◌, ◌++◌,
  ◌∷◌, true, arith, length, length-append, ap, ◌||◌, false,
}
use nexo_im.Entity.ConversationId.{colon, gen_single_conversation_id}
use mathlib.Core.List.{append_assoc}
use nexo_im.Service.Message.Access.{check_single_chat_access}

-- The check on an id with the prefix looks at the two sides of the first colon.
access_joined :
    (s t u : Text)
    → Lacks colon s
    → check_single_chat_access u (codes "si_" ++ (s ++ (colon ∷ t))) ≡ (s =ₜ u || t =ₜ u)
unfolding check_single_chat_access
access_joined s t u h = ground (arith, cut-append colon s t h, length-append s (colon ∷ t))

-- The two users of a single chat have access to it and nobody else has, provided that their ids
-- have no colon.
pub check_single_chat_access-gen :
    (a b u : Text)
    → Lacks colon a
    → Lacks colon b
    → (check_single_chat_access u (gen_single_conversation_id a b) ≡ true) ↔ ((u ≡ a) ⊎ (u ≡ b))
unfolding gen_single_conversation_id
check_single_chat_access-gen a b u ha hb = (
  λ h. ground (arith, access_joined a b u ha, access_joined b a u hb, =ₜ→eq a u, =ₜ→eq b u),
  λ h. ground (arith, access_joined a b u ha, access_joined b a u hb, =ₜ_refl a, =ₜ_refl b),
)

-- Where the ids of a single chat are `x:y` and `z` in that order, and `x` has no colon, the user
-- `x` is let in, and the user `x:y` is locked out, unless `y:z` spells the same id.
pub check_single_chat_access-colon :
    (x y z : Text)
    → Lacks colon x
    → ((x ++ (colon ∷ y)) <ₜ z) ≡ true
    → y ++ (colon ∷ z) ≢ x ++ (colon ∷ y)
    → (check_single_chat_access x (gen_single_conversation_id (x ++ (colon ∷ y)) z) ≡ true)
      × (check_single_chat_access
            (x ++ (colon ∷ y))
            (gen_single_conversation_id (x ++ (colon ∷ y)) z)
          ≡ false)
unfolding gen_single_conversation_id
check_single_chat_access-colon x y z hx k n = ground (
  arith,
  <ₜ_asymm (x ++ (colon ∷ y)) z k,
  append_assoc x (colon ∷ y) (colon ∷ z),
  access_joined x (y ++ (colon ∷ z)) x hx,
  access_joined x (y ++ (colon ∷ z)) (x ++ (colon ∷ y)) hx,
  =ₜ_refl x,
  =ₜ→eq x (x ++ (colon ∷ y)),
  =ₜ→eq (y ++ (colon ∷ z)) (x ++ (colon ∷ y)),
  ap {B = ℕ} length {x = x} {y = x ++ (colon ∷ y)},
  length-append x (colon ∷ y),
)
