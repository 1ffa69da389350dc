-- ===== src/Repository/Conversation.antt =====
-- internal/repository/conversation_repo.go
pub mod Page
use nexo_im.Base.{
  is_some, ◌++◌, eqb_ℤ, List, ◌∷◌, if◌then◌else◌, ℤ, pos, Text, ◌=ₜ◌, Bool, false, ◌&&◌, Option,
  none, some, [], find, update, upsert,
}
use nexo_im.Errors.{refused, no_record, Result, ok, err}
use nexo_im.Entity.Conversation.{Conversation}
use nexo_im.Backend.{Sql, Backend}
use nexo_im.Backend.Monad.{Action, pure, fail, ◌>>=◌, ◌>>◌, attempt, gets}
use nexo_im.Repository.Statement.{found}

-- WHERE owner_id = ? AND conversation_id = ?
abbrev pub of_owner : Text → Text → Conversation → Bool
of_owner o c r = r.owner_id =ₜ o && r.conversation_id =ₜ c

unfoldable pub first_conversation : Text → Text → Sql Conversation
first_conversation o c d = (found (find (of_owner o c) d.conversations), d)

-- INSERT … ON DUPLICATE KEY UPDATE updated_at = now; gorm sets the times of a new row.
unfoldable pub upsert_conversation : Conversation → ℤ → Sql (Unit {0})
upsert_conversation row now d = (
  ok tt,
  record d {
    conversations =
        upsert (of_owner row.owner_id row.conversation_id) (λ r. record r { updated_at = now })
          (record row { created_at = now; updated_at = now }) d.conversations;
  },
)

-- INSERT; the table has the unique key (owner_id, conversation_id).
unfoldable pub insert_conversation : Conversation → Sql (Unit {0})
insert_conversation row d =
    if is_some (find (of_owner row.owner_id row.conversation_id) d.conversations)
    then (err refused, d)
    else (ok tt, record d { conversations = d.conversations ++ row ∷ [] })

-- What `Update` is given: each column that the request names.
pub record Updates : Type 0 where
  pub recv_msg_opt : Option ℤ
  pub is_pinned : Option Bool

abbrev or_old {ℓ} : {A : Type ℓ} → Option A → A → A
or_old none old = old
or_old (some new) old = new

unfoldable pub update_conversation : Text → Text → Updates → ℤ → Sql (Unit {0})
update_conversation o c u now d = (
  ok tt,
  record d {
    conversations =
        update (of_owner o c)
          (λ r. record r {
            recv_msg_opt = or_old u.recv_msg_opt r.recv_msg_opt;
            is_pinned = or_old u.is_pinned r.is_pinned;
            updated_at = now;
          })
          d.conversations;
  },
)

abbrev pub single_chat : Text → Text → Text → Conversation
single_chat conversation_id owner_id peer_user_id = record {
  conversation_id = conversation_id;
  owner_id = owner_id;
  conversation_type = pos 1;
  peer_user_id = peer_user_id;
  group_id = [];
  recv_msg_opt = pos 0;
  is_pinned = false;
  created_at = pos 0;
  updated_at = pos 0;
}

module _ (b : Backend) where
  open b use {World, exec, clock}

  abbrev optional : Result Conversation → Action World (Option Conversation)
  optional (ok r) = pure (some r)
  optional (err no_record) = pure none
  optional (err f) = fail f

  unfoldable pub get_by_owner_and_conv_id : Text → Text → Action World (Option Conversation)
  get_by_owner_and_conv_id owner_id conversation_id = do
    row ← attempt (exec Conversation (first_conversation owner_id conversation_id))
    optional row

  unfoldable pub create : Conversation → Action World (Unit {0})
  create conv = do
    now ← gets clock
    exec Unit (insert_conversation (record conv { created_at = now; updated_at = now }))

  unfoldable pub upsert_row : Conversation → Action World (Unit {0})
  upsert_row conv = do now ← gets clock; exec Unit (upsert_conversation conv now)

  unfoldable pub update_settings : Text → Text → Updates → Action World (Unit {0})
  update_settings owner_id conversation_id updates = do
    now ← gets clock
    exec Unit (update_conversation owner_id conversation_id updates now)

  -- An update of no column; gorm sets the time.
  unfoldable pub touch : Text → Text → Action World (Unit {0})
  touch owner_id conversation_id =
      update_settings owner_id conversation_id (record { recv_msg_opt = none; is_pinned = none })

  unfoldable pub ensure_single_chat_conversations : Text → Text → Text → Action World (Unit {0})
  ensure_single_chat_conversations conversation_id sender_id recv_id = do
    now ← gets clock
    exec Unit (upsert_conversation (single_chat conversation_id sender_id recv_id) now)
    later ← gets clock
    exec Unit (upsert_conversation (single_chat conversation_id recv_id sender_id) later)

  -- The loop over the users. In a single chat the peer is left out.
  unfoldable pub ensure_conversations_exist :
      Text → ℤ → List Text → Text → Text → Action World (Unit {0})
  ensure_conversations_exist conversation_id conv_type [] group_id peer_user_id = pure tt
  ensure_conversations_exist conversation_id conv_type (user_id ∷ user_ids) group_id peer_user_id =
      let rest =
        ensure_conversations_exist conversation_id conv_type user_ids group_id peer_user_id in
      if eqb_ℤ conv_type (pos 1) && peer_user_id =ₜ user_id then rest else do
        now ← gets clock
        exec Unit (
            upsert_conversation
              (record {
                conversation_id = conversation_id;
                owner_id = user_id;
                conversation_type = conv_type;
                peer_user_id = peer_user_id;
                group_id = group_id;
                recv_msg_opt = pos 0;
                is_pinned = false;
                created_at = pos 0;
                updated_at = pos 0;
              })
              now)
        rest
