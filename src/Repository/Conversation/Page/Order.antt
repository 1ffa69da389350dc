-- ===== src/Repository/Conversation/Page/Order.antt =====
-- The order of the conversation list of internal/repository/conversation_repo.go is strict, and a
-- cursor cuts the list behind its row.
use nexo_im.Base.{
  All-middle, ◌++◌, Text, ◌<ₜ◌, <ₜ_total, true, false, ◌≡◌, ◌≢◌, refl, List, [], ◌∷◌, All, All-map,
  select, arith, Bool-cases, inl, inr,
}
use nexo_im.Entity.Conversation.{Conversation}
use nexo_im.Repository.Conversation.Page.{cursor_of, comes_after, insert_ordered, newest_first}

<ₜ_trans : (s t u : Text) → (s <ₜ t) ≡ true → (t <ₜ u) ≡ true → (s <ₜ u) ≡ true
unfolding ◌<ₜ◌
<ₜ_trans [] [] u h k = cc
<ₜ_trans [] (d ∷ t) [] h k = cc
<ₜ_trans [] (d ∷ t) (e ∷ u) h k = refl
<ₜ_trans (c ∷ s) [] u h k = cc
<ₜ_trans (c ∷ s) (d ∷ t) [] h k = cc
<ₜ_trans (c ∷ s) (d ∷ t) (e ∷ u) h k = ground (arith, <ₜ_trans s t u)

<ₜ_irrefl : (s : Text) → (s <ₜ s) ≡ false
unfolding ◌<ₜ◌
<ₜ_irrefl [] = refl
<ₜ_irrefl (c ∷ s) = ground (arith, <ₜ_irrefl s)

-- `Below y x`: y is listed after x.
abbrev pub Below : Conversation → Conversation → Type 0
Below x y = comes_after y (cursor_of x) ≡ true

comes_after_trans : (x y z : Conversation) → Below x y → Below y z → Below x z
unfolding comes_after
comes_after_trans x y z h k =
    ground (arith, <ₜ_trans z.conversation_id y.conversation_id x.conversation_id)

comes_after_irrefl : (x : Conversation) → comes_after x (cursor_of x) ≡ false
unfolding comes_after
comes_after_irrefl x = ground (arith, <ₜ_irrefl x.conversation_id)

comes_after_total :
    (x y : Conversation)
    → x.conversation_id ≢ y.conversation_id
    → comes_after y (cursor_of x) ≡ false
    → Below y x
unfolding comes_after
comes_after_total x y n h = ground (arith, <ₜ_total y.conversation_id x.conversation_id)

-- Each conversation stands before those that come after it.
abbrev pub IsNewestFirst : List Conversation → Type 0
IsNewestFirst [] = Unit
IsNewestFirst (x ∷ xs) = All (Below x) xs × IsNewestFirst xs

abbrev pub Differs : Conversation → Conversation → Type 0
Differs x y = x.conversation_id ≢ y.conversation_id

-- No two rows have the same conversation id.
abbrev pub HasDistinctIds : List Conversation → Type 0
HasDistinctIds [] = Unit
HasDistinctIds (x ∷ xs) = All (Differs x) xs × HasDistinctIds xs

pub All-insert_ordered {κ} :
    (P : Conversation → Type κ) (c : Conversation) (xs : List Conversation)
    → P c
    → All P xs
    → All P (insert_ordered c xs)
unfolding insert_ordered
All-insert_ordered P c [] h k = (h, tt)
All-insert_ordered P c (x ∷ xs) h k = elim (Bool-cases (comes_after x (cursor_of c))) [
  | inl after ↦ rw after (h, k)
  | inr before ↦ rw before (k.0, All-insert_ordered P c xs h k.1)
]

insert_ordered-IsNewestFirst :
    (c : Conversation) (xs : List Conversation)
    → All (Differs c) xs
    → IsNewestFirst xs
    → IsNewestFirst (insert_ordered c xs)
unfolding insert_ordered
insert_ordered-IsNewestFirst c [] d h = (tt, tt)
insert_ordered-IsNewestFirst c (x ∷ xs) d h = elim (Bool-cases (comes_after x (cursor_of c))) [
  | inl after ↦
      rw after
        ((after, All-map (Below x) (Below c) xs (λ z k. comes_after_trans c x z after k) h.0), h)
  | inr before ↦ rw before (
    All-insert_ordered (Below x) c xs (comes_after_total c x d.0 before) h.0,
    insert_ordered-IsNewestFirst c xs d.1 h.1,
  )
]

pub All-newest_first {κ} :
    (P : Conversation → Type κ) (xs : List Conversation) → All P xs → All P (newest_first xs)
unfolding newest_first
All-newest_first P [] h = tt
All-newest_first P (x ∷ xs) h =
    All-insert_ordered P x (newest_first xs) h.0 (All-newest_first P xs h.1)

pub newest_first-IsNewestFirst :
    (xs : List Conversation) → HasDistinctIds xs → IsNewestFirst (newest_first xs)
unfolding newest_first
newest_first-IsNewestFirst [] h = tt
newest_first-IsNewestFirst (x ∷ xs) h =
    insert_ordered-IsNewestFirst x (newest_first xs) (All-newest_first (Differs x) xs h.0)
      (newest_first-IsNewestFirst xs h.1)

select-All :
    (x : Conversation) (xs : List Conversation)
    → All (Below x) xs
    → select (λ c. comes_after c (cursor_of x)) xs ≡ xs
unfolding select
select-All x [] h = refl
select-All x (y ∷ ys) h = ground (arith, select-All x ys h.1)

-- A cursor at a row selects the rows behind it.
pub select-after_row :
    (ps : List Conversation) (x : Conversation) (rest : List Conversation)
    → IsNewestFirst (ps ++ x ∷ rest)
    → select (λ c. comes_after c (cursor_of x)) (ps ++ x ∷ rest) ≡ rest
unfolding select
select-after_row [] x rest h = ground (arith, comes_after_irrefl x, select-All x rest h.0)
select-after_row (p ∷ ps) x rest h =
    let below = All-middle (Below p) ps x rest h.0 in
    elim (Bool-cases (comes_after p (cursor_of x))) [
      | inl both ↦ absurd (ground (arith, comes_after_trans p x p below both, comes_after_irrefl p))
      | inr before ↦ rw before (select-after_row ps x rest h.1)
    ]
