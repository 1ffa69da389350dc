-- ===== src/Service/Group/Membership/Joining.antt =====
-- What joining a group does (internal/service/group_service.go).
use nexo_im.Base.{
  ℤ, pos, ◌+ℤ◌, Text, =ₜ_refl, Option-cases, ◌≡◌, inl, inr, some, find, find-upsert_self, subst,
  sym, arith,
}
use nexo_im.Errors.{ok}
use nexo_im.Entity.ConversationId.{gen_group_conversation_id}
use nexo_im.Entity.Group.{group_member_status_normal, role_level_member}
use nexo_im.Repository.Seq.{get_max_seq_with_lock}
use nexo_im.Repository.Group.{of_member, rejoined, upsert_member, get_by_id, get_member, add_member}
use nexo_im.Service.Group.{Backend, new_member, admit, join_tx, join_group}
use nexo_im.Service.Group.Calls.{
  add_member_cases, get_max_seq_with_lock_cases, set_seq_user_min_seq_cases, get_by_id_cases,
  get_member_cases,
}
use nexo_im.Service.Group.Membership.{Db, newest_in, membership, IsJoined}

-- What an upsert of a new membership leaves to be found.
member_after :
    (g u inviter : Text) (role t n now : ℤ) (d : Db)
    → (membership
          (find (of_member g u) (upsert_member (new_member g u role t n inviter) now d).1.members)
        ≡ some (group_member_status_normal, role, n, inviter))
      × ((upsert_member (new_member g u role t n inviter) now d).1.messages ≡ d.messages)
unfolding upsert_member new_member
member_after g u inviter role t n now d =
    let m = new_member g u role t n inviter in
    ground (
      arith,
      find-upsert_self (of_member g u) (rejoined m now) (record m { updated_at = now }) d.members
          (ground (arith, =ₜ_refl g, =ₜ_refl u)) (λ x k. k),
      Option-cases (find (of_member g u) d.members),
    )

module _ (b : Backend) where
  open b use {World, db, clock, transaction, transaction_lem}

  join_tx-IsJoined :
      (g u i : Text) (w : World)
      → (join_tx b g u i w).0 ≡ ok tt
      → IsJoined g u i (db w) (db (join_tx b g u i w).1)
  unfolding join_tx admit
  join_tx-IsJoined g u i w h =
      let w₁ = (get_by_id b g w).1 in
      let w₂ = (get_member b g u w₁).1 in
      let c = gen_group_conversation_id g in
      let w₃ = (get_max_seq_with_lock b c w₂).1 in
      let n = newest_in g (db w) +ℤ pos 1 in
      let m = new_member g u role_level_member (clock w₃) n i in
      let w₄ = (add_member b m w₃).1 in
      ground (
        arith,
        get_by_id_cases b g w,
        get_member_cases b g u w₁,
        get_max_seq_with_lock_cases b c w₂,
        add_member_cases b m w₃,
        member_after g u i role_level_member (clock w₃) n (clock w₃) (db w₃),
        set_seq_user_min_seq_cases b u c n w₄,
      )

  -- A user who has joined a group was allowed to, is an active member of it, and has a row that lets
  -- them see what comes after the number that was the newest; the messages are as they were.
  pub join_group-IsJoined :
      (g u i : Text) (w : World)
      → (join_group b g u i w).0 ≡ ok tt
      → IsJoined g u i (db w) (db (join_group b g u i w).1)
  unfolding join_group
  join_group-IsJoined g u i w h = elim (transaction_lem Unit (join_tx b g u i) w) [
    | inl (x, ran, done, same) ↦
        subst (IsJoined g u i (db w)) (sym same) (join_tx-IsJoined g u i w (ground arith))
    | inr (f, failed, _, same) ↦ ground arith
  ]
