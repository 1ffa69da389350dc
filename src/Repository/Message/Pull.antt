-- ===== src/Repository/Message/Pull.antt =====
-- What a range query of internal/repository/message_repo.go selects.
use nexo_im.Base.{
  ℕ, zero, suc, ℤ, ◌≤ℤ◌, Text, =ₜ→eq, ◌≡◌, List, [], ◌∷◌, arith, select, take, All, All-take,
}
use nexo_im.Entity.Message.{Message}
use nexo_im.Repository.Message.{in_range, insert_by_seq, order_by_seq}

-- Ascending in `seq`.
abbrev pub Ascending : List Message → Type 0
Ascending [] = Unit
Ascending (x ∷ xs) = All (λ y. x.seq ≤ℤ y.seq) xs × Ascending xs

abbrev pub InRange : Text → ℤ → ℤ → Message → Type 0
InRange c lo hi m = (m.conversation_id ≡ c) × (lo ≤ℤ m.seq) × (m.seq ≤ℤ hi)

module _ {κ} (P : Message → Type κ) where
  insert_by_seq-All :
      (m : Message) (xs : List Message) → P m → All P xs → All P (insert_by_seq m xs)
  unfolding insert_by_seq
  insert_by_seq-All m [] h k = (h, tt)
  insert_by_seq-All m (x ∷ xs) h k = ground (arith, insert_by_seq-All m xs h k.1)

  pub order_by_seq-All : (xs : List Message) → All P xs → All P (order_by_seq xs)
  unfolding order_by_seq
  order_by_seq-All [] h = tt
  order_by_seq-All (x ∷ xs) h = insert_by_seq-All x (order_by_seq xs) h.0 (order_by_seq-All xs h.1)

All-above :
    (a b : ℤ) (xs : List Message) → a ≤ℤ b → All (λ y. b ≤ℤ y.seq) xs → All (λ y. a ≤ℤ y.seq) xs
All-above a b [] h k = tt
All-above a b (x ∷ xs) h k = (omega arith, All-above a b xs h k.1)

insert_by_seq-Ascending :
    (m : Message) (xs : List Message) → Ascending xs → Ascending (insert_by_seq m xs)
unfolding insert_by_seq
insert_by_seq-Ascending m [] h = (tt, tt)
insert_by_seq-Ascending m (x ∷ xs) h = ground (
  arith,
  All-above m.seq x.seq xs,
  insert_by_seq-Ascending m xs h.1,
  insert_by_seq-All (λ y. x.seq ≤ℤ y.seq) m xs,
)

pub order_by_seq-Ascending : (xs : List Message) → Ascending (order_by_seq xs)
unfolding order_by_seq
order_by_seq-Ascending [] = tt
order_by_seq-Ascending (x ∷ xs) =
    insert_by_seq-Ascending x (order_by_seq xs) (order_by_seq-Ascending xs)

pub take-Ascending : (n : ℕ) (xs : List Message) → Ascending xs → Ascending (take n xs)
take-Ascending zero xs h = tt
take-Ascending (suc n) [] h = tt
take-Ascending (suc n) (x ∷ xs) h =
    (All-take (λ y. x.seq ≤ℤ y.seq) n xs h.0, take-Ascending n xs h.1)

pub select-InRange :
    (c : Text) (lo hi : ℤ) (xs : List Message)
    → All (InRange c lo hi) (select (in_range c lo hi) xs)
unfolding select
select-InRange c lo hi [] = tt
select-InRange c lo hi (x ∷ xs) =
    ground (arith, =ₜ→eq x.conversation_id c, select-InRange c lo hi xs)
