-- ===== src/Repository/Seq.antt =====
-- internal/repository/seq_repo.go
pub mod ReadSeq
use nexo_im.Base.{
  ℤ, pos, ltb_ℤ, ◌-ℤ◌, max_ℤ, Text, ◌=ₜ◌, Bool, ◌&&◌, Option, none, some, is_some, List, [], ◌∷◌,
  ◌++◌, if◌then◌else◌, find, update, upsert,
}
use nexo_im.Errors.{Failure, no_record, refused, Result, ok, err}
use nexo_im.Entity.Seq.{SeqConversation, SeqUser}
use nexo_im.Backend.{Db, Sql, Backend}
use nexo_im.Backend.Monad.{Action, pure, fail, ◌>>=◌, ◌>>◌, attempt}
use nexo_im.Repository.Statement.{found, redis_key_seq_conversation, incr, get, set}

-- WHERE conversation_id = ?
abbrev pub of_conversation : Text → SeqConversation → Bool
of_conversation c r = r.conversation_id =ₜ c

-- WHERE user_id = ? AND conversation_id = ?
abbrev pub of_user : Text → Text → SeqUser → Bool
of_user u c r = r.user_id =ₜ u && r.conversation_id =ₜ c

unfoldable pub first_seq_conversation : Text → Sql SeqConversation
first_seq_conversation c d = (found (find (of_conversation c) d.seq_conversations), d)

unfoldable pub upsert_max_seq : Text → ℤ → Sql (Unit {0})
upsert_max_seq c n d = (
  ok tt,
  record d {
    seq_conversations =
        upsert (of_conversation c) (λ r. record r { max_seq = n })
          (record { conversation_id = c; max_seq = n; min_seq = pos 0 }) d.seq_conversations;
  },
)

unfoldable pub first_seq_user : Text → Text → Sql SeqUser
first_seq_user u c d = (found (find (of_user u c) d.seq_users), d)

abbrev pub upsert_seq_users : (SeqUser → SeqUser) → SeqUser → Sql (Unit {0})
upsert_seq_users f row d = (
  ok tt,
  record d { seq_users = upsert (of_user row.user_id row.conversation_id) f row d.seq_users },
)

abbrev pub update_seq_users : Text → Text → (SeqUser → SeqUser) → Sql (Unit {0})
update_seq_users u c f d = (ok tt, record d { seq_users = update (of_user u c) f d.seq_users })

-- INSERT; the table has the unique key (user_id, conversation_id).
unfoldable pub insert_seq_user : SeqUser → Sql (Unit {0})
insert_seq_user row d =
    if is_some (find (of_user row.user_id row.conversation_id) d.seq_users)
    then (err refused, d)
    else (ok tt, record d { seq_users = d.seq_users ++ row ∷ [] })

module _ (b : Backend) where
  open b use {World, exec, command, key_prefix}

  unfoldable pub alloc_seq : Text → Action World ℤ
  alloc_seq conversation_id =
      command ℤ (incr (redis_key_seq_conversation key_prefix conversation_id))

  -- `if err != nil { if errors.Is(err, gorm.ErrRecordNotFound) { return 0, nil }; return 0, err }`
  abbrev max_seq_of : Result SeqConversation → Action World ℤ
  max_seq_of (ok r) = pure r.max_seq
  max_seq_of (err no_record) = pure (pos 0)
  max_seq_of (err f) = fail f

  -- The fall back to MySQL, which restores the number in Redis; a failure of that is ignored.
  max_seq_from_db : Text → Result SeqConversation → Action World ℤ
  max_seq_from_db key (ok r) = do attempt (command Unit (set key r.max_seq)); pure r.max_seq
  max_seq_from_db key (err no_record) = pure (pos 0)
  max_seq_from_db key (err f) = fail f

  max_seq_cached : Text → Result ℤ → Action World ℤ
  unfolding max_seq_from_db
  max_seq_cached conversation_id (ok n) = pure n
  max_seq_cached conversation_id (err no_record) = do
    row ← attempt (exec SeqConversation (first_seq_conversation conversation_id))
    max_seq_from_db (redis_key_seq_conversation key_prefix conversation_id) row
  max_seq_cached conversation_id (err f) = fail f

  unfoldable pub get_max_seq : Text → Action World ℤ
  unfolding max_seq_cached
  get_max_seq conversation_id = do
    n ← attempt (command ℤ (get (redis_key_seq_conversation key_prefix conversation_id)))
    max_seq_cached conversation_id n

  -- The row lock that SELECT … FOR UPDATE takes is not modelled.
  unfoldable pub get_max_seq_with_lock : Text → Action World ℤ
  get_max_seq_with_lock conversation_id = do
    row ← attempt (exec SeqConversation (first_seq_conversation conversation_id))
    max_seq_of row

  -- `SyncSeqToMySQL` is the same statement outside a transaction.
  unfoldable pub sync_seq_to_mysql_with_tx : Text → ℤ → Action World (Unit {0})
  sync_seq_to_mysql_with_tx conversation_id max_seq =
      exec Unit (upsert_max_seq conversation_id max_seq)

  restore_seq : Text → Result SeqConversation → Action World (Unit {0})
  restore_seq key (ok r) = command Unit (set key r.max_seq)
  restore_seq key (err no_record) = pure tt
  restore_seq key (err f) = fail f

  unfoldable pub init_seq_from_mysql : Text → Action World (Unit {0})
  unfolding restore_seq
  init_seq_from_mysql conversation_id = do
    row ← attempt (exec SeqConversation (first_seq_conversation conversation_id))
    restore_seq (redis_key_seq_conversation key_prefix conversation_id) row

  -- `return nil, nil` where there is no row
  abbrev optional : {A : Type 0} → Result A → Action World (Option A)
  optional (ok r) = pure (some r)
  optional (err no_record) = pure none
  optional (err f) = fail f

  unfoldable pub get_seq_user : Text → Text → Action World (Option SeqUser)
  get_seq_user user_id conversation_id = do
    row ← attempt (exec SeqUser (first_seq_user user_id conversation_id))
    optional row

  unfoldable pub upsert_seq_user : SeqUser → Action World (Unit {0})
  upsert_seq_user s = exec Unit (
      upsert_seq_users
        (λ r. record r {
          min_seq = max_ℤ r.min_seq s.min_seq;
          max_seq = max_ℤ r.max_seq s.max_seq;
          read_seq = max_ℤ r.read_seq s.read_seq;
        })
        s)

  unfoldable pub set_seq_user_min_seq : Text → Text → ℤ → Action World (Unit {0})
  set_seq_user_min_seq user_id conversation_id min_seq = exec Unit (
      upsert_seq_users
        (λ r. record r { min_seq = min_seq; max_seq = pos 0; read_seq = min_seq -ℤ pos 1 })
        (record {
          user_id = user_id;
          conversation_id = conversation_id;
          min_seq = min_seq;
          max_seq = pos 0;
          read_seq = min_seq -ℤ pos 1;
        }))

  unfoldable pub set_seq_user_max_seq : Text → Text → ℤ → Action World (Unit {0})
  set_seq_user_max_seq user_id conversation_id max_seq =
      exec Unit (update_seq_users user_id conversation_id (λ r. record r { max_seq = max_seq }))

  read_seq_over : Text → Text → ℤ → Result SeqUser → Action World (Unit {0})
  read_seq_over user_id conversation_id read_seq (ok existing) =
      if ltb_ℤ existing.read_seq read_seq
      then exec Unit
          (update_seq_users user_id conversation_id (λ r. record r { read_seq = read_seq }))
      else pure tt
  read_seq_over user_id conversation_id read_seq (err no_record) = exec Unit (
      insert_seq_user (record {
        user_id = user_id;
        conversation_id = conversation_id;
        min_seq = pos 0;
        max_seq = pos 0;
        read_seq = read_seq;
      }))
  read_seq_over user_id conversation_id read_seq (err f) = fail f

  unfoldable pub update_read_seq : Text → Text → ℤ → Action World (Unit {0})
  unfolding read_seq_over
  update_read_seq user_id conversation_id read_seq = do
    existing ← attempt (exec SeqUser (first_seq_user user_id conversation_id))
    read_seq_over user_id conversation_id read_seq existing

  abbrev info_of : Text → Result SeqConversation → Action World SeqConversation
  info_of conversation_id (ok r) = pure r
  info_of conversation_id (err no_record) =
      pure (record { conversation_id = conversation_id; max_seq = pos 0; min_seq = pos 0 })
  info_of conversation_id (err f) = fail f

  -- A conversation with no row counts as one at 0.
  unfoldable pub get_conversation_seq_info : Text → Action World SeqConversation
  get_conversation_seq_info conversation_id = do
    row ← attempt (exec SeqConversation (first_seq_conversation conversation_id))
    info_of conversation_id row

  unfoldable pub ensure_seq_conversation_exists : Text → Action World (Unit {0})
  ensure_seq_conversation_exists conversation_id = exec Unit (λ d. (
    ok tt,
    record d {
      seq_conversations =
          upsert (of_conversation conversation_id) (λ r. r)
            (record { conversation_id = conversation_id; max_seq = pos 0; min_seq = pos 0 })
            d.seq_conversations;
    },
  ))
