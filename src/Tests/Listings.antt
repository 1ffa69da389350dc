-- ===== src/Tests/Listings.antt =====
-- Runs of the conversation list and of the newest number over HTTP.
use nexo_im.Base.{
  ℕ, pos, codes, ◌=ₜ◌, ◌≡◌, ◌↔◌, ◌≢◌, refl, true, some, [], ◌∷◌, arith, select, =ₜ→ne,
}
use nexo_im.Entity.Conversation.{Conversation}
use nexo_im.Backend.{Db}
use nexo_im.Backend.Memory.{memory, holding, State}
use nexo_im.Repository.Conversation.{single_chat}
use nexo_im.Repository.Conversation.Page.{
  no_cursor, conversations_page, user_conversations, newest_first, insert_ordered, comes_after,
}
use nexo_im.Service.Conversation.Pages.Walk.{walk, walk-whole}
use nexo_im.Service.Message.Pull
use nexo_im.Handler.Message.{get_max_seq}
use nexo_im.Handler.Message.MaxSeq.{LooksGood, get_max_seq_code}
use nexo_im.Tests.Data.{ann, bob, eve, chat, two_messages}

abbrev dated : Conversation → ℕ → Conversation
dated c n = record c { updated_at = pos n }

-- Bob has two conversations, ann one.
abbrev three_rows : Db
three_rows = record two_messages {
  conversations =
      dated (single_chat chat bob ann) 5
      ∷ (dated (single_chat chat ann bob) 5
          ∷ (dated (single_chat (codes "si_bob:eve") bob eve) 7 ∷ []));
}

other_chats : codes "si_ann:bob" ≢ codes "si_bob:eve"
unfolding ◌=ₜ◌
other_chats = =ₜ→ne (codes "si_ann:bob") (codes "si_bob:eve") refl

walk-whole_example :
    walk 3 three_rows bob (pos 1) no_cursor
    ≡ some (conversations_page bob (pos 0) no_cursor three_rows)
unfolding select ◌=ₜ◌ user_conversations newest_first insert_ordered comes_after
walk-whole_example =
    walk-whole three_rows bob (pos 1) 3 ((other_chats, tt), (tt, tt)) (omega arith) (omega arith)

-- Redis and then the database do not answer.
abbrev failing : State
failing = record (holding two_messages) { faults = true ∷ (true ∷ []) }

get_max_seq_code_example :
    let answer = (get_max_seq memory ann chat failing).0 in
    (answer.code ≡ 0) ↔ LooksGood (Pull.get_max_seq memory ann chat failing).0 answer
get_max_seq_code_example = get_max_seq_code memory ann chat failing refl refl
