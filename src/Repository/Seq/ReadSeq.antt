-- ===== src/Repository/Seq/ReadSeq.antt =====
-- What `UpdateReadSeq` of internal/repository/seq_repo.go does to the row of the user.
use nexo_im.Base.{pos, ℤ, max_ℤ, Text, ◌≡◌, Option, some, arith, find, find-update_self}
use nexo_im.Errors.{ok}
use nexo_im.Entity.Seq.{SeqUser}
use nexo_im.Backend.{Backend}
use nexo_im.Repository.Seq.{
  of_user, first_seq_user, insert_seq_user, update_seq_users, update_read_seq,
}

module _ (b : Backend) where
  open b use {World, db, exec, exec_lem}

  -- The row that a user has in a conversation.
  abbrev pub row : World → Text → Text → Option SeqUser
  row w u c = find (of_user u c) (db w).seq_users

  -- When the update returns without an error the user's read_seq is the larger of the old one and
  -- the given one, and the visible range is as it was.
  pub update_read_seq-row :
      (u c : Text) (n : ℤ) (w : World) (r : SeqUser)
      → row w u c ≡ some r
      → (update_read_seq b u c n w).0 ≡ ok tt
      → row (update_read_seq b u c n w).1 u c ≡ some (record r { read_seq = max_ℤ r.read_seq n })
  unfolding update_read_seq first_seq_user max_ℤ
  update_read_seq-row u c n w r e h = ground (
    arith,
    exec_lem SeqUser (first_seq_user u c) w,
    exec_lem Unit (update_seq_users u c (λ x. record x { read_seq = n }))
        (exec SeqUser (first_seq_user u c) w).1,
    find-update_self (of_user u c) (λ x. record x { read_seq = n }) (db w).seq_users r e (λ x k. k),
  )

  -- Only the rows of seq_users change, and none if the call fails.
  pub update_read_seq_frame :
      (u c : Text) (n : ℤ) (w : World)
      → db (update_read_seq b u c n w).1
        ≡ record (db w) { seq_users = (db (update_read_seq b u c n w).1).seq_users }
  unfolding update_read_seq first_seq_user insert_seq_user
  update_read_seq_frame u c n w =
      let w₁ = (exec SeqUser (first_seq_user u c) w).1 in
      ground (
        arith,
        exec_lem SeqUser (first_seq_user u c) w,
        exec_lem Unit (update_seq_users u c (λ x. record x { read_seq = n })) w₁,
        exec_lem Unit
            (insert_seq_user (record {
              user_id = u;
              conversation_id = c;
              min_seq = pos 0;
              max_seq = pos 0;
              read_seq = n;
            }))
            w₁,
      )
