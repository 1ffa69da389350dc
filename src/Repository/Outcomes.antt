-- ===== src/Repository/Outcomes.antt =====
-- How each call of internal/repository that sending needs ends, and what it does to the tables.
use nexo_im.Base.{ℤ, pos, ◌+ℤ◌, Text, =ₜ_refl, ◌≡◌, ◌⊎◌, Bool, none, [], ◌∷◌, ◌++◌, find, arith}
use nexo_im.Errors.{refused, ok, err}
use nexo_im.Entity.Message.{Message}
use nexo_im.Backend.{Backend}
use nexo_im.Backend.Leaves.{reading, Leaves}
use nexo_im.Repository.Statement.{incr, zero_or, redis_key_seq_conversation}
use nexo_im.Repository.Seq.{upsert_max_seq, alloc_seq, sync_seq_to_mysql_with_tx}
use nexo_im.Repository.Message.{
  at_seq, from_client, insert_message, first_from_client, create, get_by_client_msg_id,
}
use nexo_im.Repository.User.{count_user, exists}

module _ (b : Backend) where
  open b use {World, db, cache, clock, next_id, exec, key_prefix, exec_lem, command_lem}

  pub exists_reads : (id : Text) → Leaves (reading b) (exists b id)
  unfolding exists count_user
  exists_reads id = record { at = λ w. ground (arith, exec_lem Bool (count_user id) w) }

  -- The counter of a conversation, 0 where Redis has none.
  abbrev pub counter : World → Text → ℤ
  counter w c = zero_or (cache w (redis_key_seq_conversation key_prefix c))

  pub alloc_seq_cases :
      (c : Text) (w : World)
      → (((alloc_seq b c w).0 ≡ ok (counter w c +ℤ pos 1))
          × (counter (alloc_seq b c w).1 c ≡ counter w c +ℤ pos 1)
          × (db (alloc_seq b c w).1 ≡ db w))
        ⊎ (((alloc_seq b c w).0 ≡ err refused) × (db (alloc_seq b c w).1 ≡ db w))
  unfolding alloc_seq incr
  alloc_seq_cases c w = ground (
    arith,
    command_lem ℤ (incr (redis_key_seq_conversation key_prefix c)) w,
    =ₜ_refl (redis_key_seq_conversation key_prefix c),
  )

  pub get_by_client_msg_id_cases :
      (s k : Text) (w : World)
      → (((get_by_client_msg_id b s k w).0 ≡ ok (find (from_client s k) (db w).messages))
          ⊎ ((get_by_client_msg_id b s k w).0 ≡ err refused))
        × (db (get_by_client_msg_id b s k w).1 ≡ db w)
        × (cache (get_by_client_msg_id b s k w).1 ≡ cache w)
  unfolding get_by_client_msg_id first_from_client
  get_by_client_msg_id_cases s k w = ground (arith, exec_lem Message (first_from_client s k) w)

  -- What gorm makes of a message that it creates.
  abbrev pub filled : Message → World → Message
  filled m w = record m { id = next_id w; created_at = clock w; updated_at = clock w }

  pub create_cases :
      (m : Message) (w : World)
      → (((create b m w).0 ≡ ok (filled m w))
          × (find (at_seq m.conversation_id m.seq) (db w).messages ≡ none)
          × (find (from_client m.sender_id m.client_msg_id) (db w).messages ≡ none)
          × (db (create b m w).1 ≡ record (db w) { messages = (db w).messages ++ filled m w ∷ [] }))
        ⊎ (((create b m w).0 ≡ err refused) × (db (create b m w).1 ≡ db w))
  unfolding create insert_message
  create_cases m w =
      ground (arith, exec_lem Unit (insert_message (b.fits (filled m w)) (filled m w)) w)

  pub sync_seq_cases :
      (c : Text) (n : ℤ) (w : World)
      → (((sync_seq_to_mysql_with_tx b c n w).0 ≡ ok tt)
          × (db (sync_seq_to_mysql_with_tx b c n w).1 ≡ (upsert_max_seq c n (db w)).1))
        ⊎ (((sync_seq_to_mysql_with_tx b c n w).0 ≡ err refused)
            × (db (sync_seq_to_mysql_with_tx b c n w).1 ≡ db w))
  unfolding sync_seq_to_mysql_with_tx upsert_max_seq
  sync_seq_cases c n w = ground (arith, exec_lem Unit (upsert_max_seq c n) w)
