-- ===== src/Service/Group/Membership/Leaving.antt =====
-- What leaving a group does (internal/service/group_service.go).
use nexo_im.Base.{
  ℤ, pos, eqb_ℤ, Text, Option-cases, ◌≡◌, refl, ◌⊎◌, inl, inr, Bool, Bool-cases, true, false, not,
  ◌&&◌, List, find, update, find-update_self, find-update_absent, subst, sym, ap, arith,
}
use mathlib.Core.Option
use mathlib.Core.Path.{subst₂}
use nexo_im.Errors.{Failure, ok, err, Result-cases}
use nexo_im.Entity.ConversationId.{gen_group_conversation_id}
use nexo_im.Entity.Group.{group_member_status_left}
use nexo_im.Entity.GroupMember
use nexo_im.Entity.GroupMember.{GroupMember, is_owner}
use nexo_im.Entity.Seq.{SeqUser}
use nexo_im.Backend.{Db, Backend}
use nexo_im.Repository.Seq.{of_user, get_max_seq_with_lock}
use nexo_im.Repository.Group.{of_member, set_member_status, get_member, update_member_status}
use nexo_im.Service.Group.{leave, quit_checked, quit_tx, quit_group}
use nexo_im.Service.Group.Calls.{
  update_member_status_cases, get_max_seq_with_lock_cases, set_seq_user_max_seq_cases,
  get_member_cases,
}
use nexo_im.Service.Group.Membership.{leavable, active, newest_in, HasLeft, IsLeft}

limit_after :
    {A : Type 0} (p : A → Bool) (f : A → A) (xs : List A)
    → ((x : A) → p x ≡ true → p (f x) ≡ true)
    → find p (update p f xs) ≡ Option.map f (find p xs)
limit_after p f xs k = elim (Option-cases (find p xs)) [
  | inl absent ↦ rw absent (find-update_absent p f xs absent)
  | inr (x, present) ↦ rw present (find-update_self p f xs x present k)
]

left_after :
    (g u : Text) (now : ℤ) (d : Db)
    → (active
          (find (of_member g u) (set_member_status g u group_member_status_left now d).1.members)
        ≡ false)
      × ((set_member_status g u group_member_status_left now d).1.messages ≡ d.messages)
      × ((set_member_status g u group_member_status_left now d).1.seq_users ≡ d.seq_users)
unfolding set_member_status GroupMember.is_normal
left_after g u now d =
    let leave : GroupMember → GroupMember =
      λ r. record r { status = group_member_status_left; updated_at = now } in
    ground (
      arith,
      limit_after (of_member g u) leave d.members (λ x k. k),
      Option-cases (find (of_member g u) d.members),
    )

module _ (b : Backend) where
  open b use {World, db, clock, transaction, transaction_lem}

  leave-HasLeft :
      (g u : Text) (w : World)
      → (leave b g u w).0 ≡ ok tt
      → HasLeft g u (db w) (db (leave b g u w).1)
  unfolding leave
  leave-HasLeft g u w h =
      let c = gen_group_conversation_id g in
      let w₂ = (get_max_seq_with_lock b c w).1 in
      let w₃ = (update_member_status b g u group_member_status_left w₂).1 in
      let limit : SeqUser → SeqUser = λ r. record r { max_seq = newest_in g (db w) } in
      ground (
        arith,
        get_max_seq_with_lock_cases b c w,
        update_member_status_cases b g u group_member_status_left w₂,
        set_seq_user_max_seq_cases b u c (newest_in g (db w)) w₃,
        left_after g u (clock w₂) (db w₂),
        limit_after (of_user u c) limit (db w).seq_users (λ x k. k),
      )

  quit_checked_lem :
      (m : GroupMember) (w : World)
      → (quit_checked b m w).1 ≡ w
        × (((quit_checked b m w).0 ≡ ok tt)
              × (GroupMember.is_normal m && not (eqb_ℤ m.role_level (pos 2)) ≡ true)
            ⊎ ((f : Failure) × ((quit_checked b m w).0 ≡ err f)))
  unfolding quit_checked is_owner
  quit_checked_lem m w = elim (Bool-cases (GroupMember.is_normal m)) [
    | inr gone ↦ rw (gone, quit_checked) (refl, inr (_, refl))
    | inl normal ↦ elim (Bool-cases (eqb_ℤ m.role_level (pos 2))) [
      | inl owner ↦ rw (normal, owner, quit_checked) (refl, inr (_, refl))
      | inr plain ↦ rw (normal, plain, quit_checked) (refl, inl (refl, refl))
    ]
  ]

  quit_tx-leavable :
      (g u : Text) (w : World)
      → (quit_tx b g u w).0 ≡ ok tt
      → (leavable g u (db w) ≡ true)
        × ((leave b g u (get_member b g u w).1).0 ≡ ok tt)
        × ((quit_tx b g u w).1 ≡ (leave b g u (get_member b g u w).1).1)
  unfolding quit_tx
  quit_tx-leavable g u w h = elim (Result-cases (get_member b g u w).0) [
    | inr (f, failed) ↦ absurd (ground (arith, rw failed at h))
    | inl (m, got) ↦
        ground (arith, quit_checked_lem m (get_member b g u w).1, get_member_cases b g u w)
  ]

  quit_tx-IsLeft :
      (g u : Text) (w : World)
      → (quit_tx b g u w).0 ≡ ok tt
      → IsLeft g u (db w) (db (quit_tx b g u w).1)
  quit_tx-IsLeft g u w h =
      let (allowed, done, end) = quit_tx-leavable g u w h in
      let same : db (get_member b g u w).1 ≡ db w = (get_member_cases b g u w).1 in
      record {
        allowed = allowed;
        closed =
            subst₂ (HasLeft g u) same (ap db (sym end))
              (leave-HasLeft g u (get_member b g u w).1 done);
      }

  pub quit_group-IsLeft :
      (g u : Text) (w : World)
      → (quit_group b g u w).0 ≡ ok tt
      → IsLeft g u (db w) (db (quit_group b g u w).1)
  unfolding quit_group
  quit_group-IsLeft g u w h = elim (transaction_lem Unit (quit_tx b g u) w) [
    | inl (x, ran, done, same) ↦
        subst (IsLeft g u (db w)) (sym same) (quit_tx-IsLeft g u w (ground arith))
    | inr (f, failed, _, same) ↦ ground arith
  ]
