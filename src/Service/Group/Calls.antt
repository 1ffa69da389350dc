-- ===== src/Service/Group/Calls.antt =====
-- How the calls that internal/service/group_service.go makes of the repositories end.
use nexo_im.Base.{
  ℤ, pos, ◌-ℤ◌, Text, =ₜ_refl, =ₜ→eq, find_holds, Option-cases, ◌≡◌, ◌⊎◌, inl, inr, Option, none,
  some, find, find-upsert_self, arith,
}
use nexo_im.Errors.{refused, ok, err}
use nexo_im.Entity.Group.{Group}
use nexo_im.Entity.GroupMember.{GroupMember}
use nexo_im.Entity.Seq.{SeqConversation, SeqUser}
use nexo_im.Backend.{Backend}
use nexo_im.Repository.Statement.{found, redis_key_group_members, del}
use nexo_im.Repository.Seq.{
  of_user, of_conversation, first_seq_conversation, upsert_seq_users, update_seq_users,
  get_max_seq_with_lock, set_seq_user_min_seq, set_seq_user_max_seq,
}
use nexo_im.Repository.Group.{
  of_id, of_member, first_group, first_member, upsert_member, set_member_status, get_by_id,
  get_member, add_member, update_member_status,
}

-- The newest number of a conversation in the tables, 0 where there is no row.
abbrev pub newest : Option SeqConversation → ℤ
newest none = pos 0
newest (some r) = r.max_seq

module _ (b : Backend) where
  open b use {
    World, db, clock, exec, key_prefix, exec_lem, command_lem, transaction, transaction_lem,
  }

  -- A call that changes something either answers `ok` and does it, or fails and does nothing.
  pub add_member_cases :
      (m : GroupMember) (w : World)
      → (((add_member b m w).0 ≡ ok tt)
          × (db (add_member b m w).1 ≡ (upsert_member m (clock w) (db w)).1))
        ⊎ (((add_member b m w).0 ≡ err refused) × (db (add_member b m w).1 ≡ db w))
  unfolding add_member upsert_member
  add_member_cases m w = ground (
    arith,
    exec_lem Unit (upsert_member m (clock w)) w,
    command_lem Unit (del (redis_key_group_members key_prefix m.group_id))
        (exec Unit (upsert_member m (clock w)) w).1,
  )

  pub update_member_status_cases :
      (g u : Text) (s : ℤ) (w : World)
      → (((update_member_status b g u s w).0 ≡ ok tt)
          × (db (update_member_status b g u s w).1 ≡ (set_member_status g u s (clock w) (db w)).1))
        ⊎ (((update_member_status b g u s w).0 ≡ err refused)
            × (db (update_member_status b g u s w).1 ≡ db w))
  unfolding update_member_status set_member_status
  update_member_status_cases g u s w = ground (
    arith,
    exec_lem Unit (set_member_status g u s (clock w)) w,
    command_lem Unit (del (redis_key_group_members key_prefix g))
        (exec Unit (set_member_status g u s (clock w)) w).1,
  )

  pub get_max_seq_with_lock_cases :
      (c : Text) (w : World)
      → (((get_max_seq_with_lock b c w).0
            ≡ ok (newest (find (of_conversation c) (db w).seq_conversations)))
          ⊎ ((get_max_seq_with_lock b c w).0 ≡ err refused))
        × (db (get_max_seq_with_lock b c w).1 ≡ db w)
  unfolding get_max_seq_with_lock first_seq_conversation
  get_max_seq_with_lock_cases c w =
      ground (arith, exec_lem SeqConversation (first_seq_conversation c) w)

  pub set_seq_user_min_seq_cases :
      (u c : Text) (n : ℤ) (w : World)
      → (((set_seq_user_min_seq b u c n w).0 ≡ ok tt)
          × (find (of_user u c) (db (set_seq_user_min_seq b u c n w).1).seq_users
              ≡ some (record {
                user_id = u;
                conversation_id = c;
                min_seq = n;
                max_seq = pos 0;
                read_seq = n -ℤ pos 1;
              }))
          × (db (set_seq_user_min_seq b u c n w).1
              ≡ record (db w) { seq_users = (db (set_seq_user_min_seq b u c n w).1).seq_users }))
        ⊎ (((set_seq_user_min_seq b u c n w).0 ≡ err refused)
            × (db (set_seq_user_min_seq b u c n w).1 ≡ db w))
  unfolding set_seq_user_min_seq
  set_seq_user_min_seq_cases u c n w =
      let row : SeqUser = record {
        user_id = u;
        conversation_id = c;
        min_seq = n;
        max_seq = pos 0;
        read_seq = n -ℤ pos 1;
      } in
      let reset : SeqUser → SeqUser =
        λ r. record r { min_seq = n; max_seq = pos 0; read_seq = n -ℤ pos 1 } in
      let after =
        find-upsert_self (of_user u c) reset row (db w).seq_users
          (ground (arith, =ₜ_refl u, =ₜ_refl c)) (λ x k. k) in
      elim (Option-cases (find (of_user u c) (db w).seq_users)) [
        | inl absent ↦ ground (arith, exec_lem Unit (upsert_seq_users reset row) w, after)
        | inr (x, present) ↦ ground (
          arith,
          exec_lem Unit (upsert_seq_users reset row) w,
          after,
          find_holds (of_user u c) (db w).seq_users x present,
          =ₜ→eq x.user_id u,
          =ₜ→eq x.conversation_id c,
        )
      ]

  pub set_seq_user_max_seq_cases :
      (u c : Text) (n : ℤ) (w : World)
      → (((set_seq_user_max_seq b u c n w).0 ≡ ok tt)
          × (db (set_seq_user_max_seq b u c n w).1
              ≡ (update_seq_users u c (λ r. record r { max_seq = n }) (db w)).1))
        ⊎ (((set_seq_user_max_seq b u c n w).0 ≡ err refused)
            × (db (set_seq_user_max_seq b u c n w).1 ≡ db w))
  unfolding set_seq_user_max_seq
  set_seq_user_max_seq_cases u c n w =
      ground (arith, exec_lem Unit (update_seq_users u c (λ r. record r { max_seq = n })) w)

  pub get_by_id_cases :
      (g : Text) (w : World)
      → (((get_by_id b g w).0 ≡ found (find (of_id g) (db w).groups))
          ⊎ ((get_by_id b g w).0 ≡ err refused))
        × (db (get_by_id b g w).1 ≡ db w)
  unfolding get_by_id first_group
  get_by_id_cases g w = ground (arith, exec_lem Group (first_group g) w)

  pub get_member_cases :
      (g u : Text) (w : World)
      → (((get_member b g u w).0 ≡ found (find (of_member g u) (db w).members))
          ⊎ ((get_member b g u w).0 ≡ err refused))
        × (db (get_member b g u w).1 ≡ db w)
  unfolding get_member first_member
  get_member_cases g u w = ground (arith, exec_lem GroupMember (first_member g u) w)
