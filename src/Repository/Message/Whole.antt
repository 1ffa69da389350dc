-- ===== src/Repository/Message/Whole.antt =====
-- That a range query of internal/repository/message_repo.go leaves no message of its range out but
-- behind a full page.
use nexo_im.Base.{
  ℕ, zero, suc, ℤ, pos_part, ◌≤ℤ◌, leb_ℤ, Text, =ₜ_refl, ◌≡◌, refl, ◌⊎◌, inl, inr, Bool, true,
  Bool-cases, List, [], ◌∷◌, arith, select, take, length, All, ap, subst, ◌∙◌, sym,
}
use mathlib.Core.List.{Memᴰ}
use mathlib.Core.List.Memᴰ.{head, tail}
use nexo_im.Errors.{ok}
use nexo_im.Entity.Message.{Message}
use nexo_im.Backend.{Backend}
use nexo_im.Repository.Message.{
  in_range, insert_by_seq, order_by_seq, capped, select_range, pull_messages,
}
use nexo_im.Repository.Message.Pull.{Ascending, InRange, order_by_seq-Ascending}

All-Memᴰ : {m : Message} (P : Message → Type 0) (xs : List Message) → All P xs → Memᴰ m xs → P m
All-Memᴰ P [] h k = elim k [ ]
All-Memᴰ P (x ∷ xs) h (head e) = subst P (sym e) h.0
All-Memᴰ P (x ∷ xs) h (tail k) = All-Memᴰ P xs h.1 k

select-Memᴰ :
    (p : Message → Bool) (m : Message) (xs : List Message)
    → p m ≡ true
    → Memᴰ m xs
    → Memᴰ m (select p xs)
unfolding select
select-Memᴰ p m [] h k = elim k [ ]
select-Memᴰ p m (x ∷ xs) h (head e) = rw (sym (ap p e) ∙ h) (head e)
select-Memᴰ p m (x ∷ xs) h (tail k) = elim (Bool-cases (p x)) [
  | inl holds ↦ rw holds (tail (select-Memᴰ p m xs h k))
  | inr fails ↦ rw fails (select-Memᴰ p m xs h k)
]

insert_by_seq-self : (m : Message) (xs : List Message) → Memᴰ m (insert_by_seq m xs)
unfolding insert_by_seq
insert_by_seq-self m [] = head refl
insert_by_seq-self m (x ∷ xs) = elim (Bool-cases (leb_ℤ m.seq x.seq)) [
  | inl holds ↦ rw holds (head refl)
  | inr fails ↦ rw fails (tail (insert_by_seq-self m xs))
]

insert_by_seq-Memᴰ : (x m : Message) (xs : List Message) → Memᴰ m xs → Memᴰ m (insert_by_seq x xs)
unfolding insert_by_seq
insert_by_seq-Memᴰ x m [] k = elim k [ ]
insert_by_seq-Memᴰ x m (y ∷ ys) (head e) = elim (Bool-cases (leb_ℤ x.seq y.seq)) [
  | inl holds ↦ rw holds (tail (head e))
  | inr fails ↦ rw fails (head e)
]
insert_by_seq-Memᴰ x m (y ∷ ys) (tail k) = elim (Bool-cases (leb_ℤ x.seq y.seq)) [
  | inl holds ↦ rw holds (tail (tail k))
  | inr fails ↦ rw fails (tail (insert_by_seq-Memᴰ x m ys k))
]

order_by_seq-Memᴰ : (m : Message) (xs : List Message) → Memᴰ m xs → Memᴰ m (order_by_seq xs)
unfolding order_by_seq
order_by_seq-Memᴰ m [] k = elim k [ ]
order_by_seq-Memᴰ m (x ∷ xs) (head e) =
    subst (λ y. Memᴰ m (insert_by_seq y (order_by_seq xs))) e
      (insert_by_seq-self m (order_by_seq xs))
order_by_seq-Memᴰ m (x ∷ xs) (tail k) =
    insert_by_seq-Memᴰ x m (order_by_seq xs) (order_by_seq-Memᴰ m xs k)

-- A full page of messages up to `m`.
abbrev pub FullBefore : ℕ → Message → List Message → Type 0
FullBefore n m ms = (length ms ≡ n) × All (λ x. x.seq ≤ℤ m.seq) ms

take-Memᴰ :
    (m : Message) (n : ℕ) (xs : List Message)
    → Ascending xs
    → Memᴰ m xs
    → Memᴰ m (take n xs) ⊎ FullBefore n m (take n xs)
take-Memᴰ m zero xs h k = inr (refl, tt)
take-Memᴰ m (suc n) [] h k = elim k [ ]
take-Memᴰ m (suc n) (x ∷ xs) h (head e) = inl (head e)
take-Memᴰ m (suc n) (x ∷ xs) h (tail k) = elim (take-Memᴰ m n xs h.1 k) [
  | inl there ↦ inl (tail there)
  | inr (full, before) ↦ inr (ap suc full, (All-Memᴰ (λ y. x.seq ≤ℤ y.seq) xs h.0 k, before))
]

module _ (b : Backend) where
  open b use {World, db, exec_lem}

  -- When a range query answers, a stored message of the conversation and the range is in the answer,
  -- or the answer is as long as the limit allows (100 where it is not between 1 and 100) and none of
  -- it comes after the message.
  pub pull_messages-Memᴰ :
      (c : Text) (lo hi n : ℤ) (w : World) (ms : List Message) (m : Message)
      → (pull_messages b c lo hi n w).0 ≡ ok ms
      → Memᴰ m (db w).messages
      → InRange c lo hi m
      → Memᴰ m ms ⊎ FullBefore (pos_part (capped n)) m ms
  unfolding pull_messages select_range
  pull_messages-Memᴰ c lo hi n w ms m h k r =
      let chosen = select (in_range c lo hi) (db w).messages in
      let page : take (pos_part (capped n)) (order_by_seq chosen) ≡ ms =
        ground (arith, exec_lem (List Message) (select_range c lo hi (capped n)) w) in
      subst (λ l. Memᴰ m l ⊎ FullBefore (pos_part (capped n)) m l) page
        (take-Memᴰ m (pos_part (capped n)) (order_by_seq chosen) (order_by_seq-Ascending chosen) (
          order_by_seq-Memᴰ m chosen
            (select-Memᴰ (in_range c lo hi) m (db w).messages (ground (arith, =ₜ_refl c)) k)))
