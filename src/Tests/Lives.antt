-- ===== src/Tests/Lives.antt =====
-- The life of one client: bob's phone sends a request in ann's name, and is kicked.
use nexo_im.Base.{◌=ₜ◌, Text, codes, true, [], ◌∷◌, ◌++◌, List, ◌≡◌, refl}
use nexo_im.Backend.Memory.{memory}
use nexo_im.Gateway.Conn.{binary, close_channel, write_message, sends}
use nexo_im.Gateway.Conn.Order.{IsOrdered}
use nexo_im.Gateway.Client.{Peer, handle_message, kick_response, write_response}
use nexo_im.Gateway.Client.Life.{
  Life, request, kick, starts, receives, kicks, closes, loops, with_conn, with_session,
}
use nexo_im.Gateway.Client.Life.Answers.{Explains, Life-answers}
use nexo_im.Tests.Sessions.{phone, json, peer, no_text}

abbrev asked : Peer memory.World
asked = (handle_message json memory 10 no_text (codes "x") peer).1

abbrev kicked : Peer memory.World
kicked = with_session (write_response json kick_response asked.session).1 asked

abbrev closing : Peer memory.World
closing =
    with_session (record kicked.session { closed = true; conn = close_channel kicked.session.conn })
      kicked

-- The write loop has sent the answer, and not the message of the kick.
abbrev told : Peer memory.World
told =
    with_conn
      (record closing.session.conn {
        queue = [] ∷ [];
        written = closing.session.conn.written ++ binary (codes "7") ∷ [];
      })
      closing

told-Life : Life json memory 10 no_text (request (codes "x") ∷ kick ∷ []) told
unfolding handle_message write_response write_message close_channel ◌=ₜ◌
told-Life =
    loops (closes (kicks (receives (codes "x") (starts phone peer.node))))
      (sends (codes "7") ([] ∷ []) refl refl)

Life-answers_example :
    (texts : List Text) × (Explains json memory 10 no_text (request (codes "x") ∷ kick ∷ []) texts
      × (IsOrdered texts told.session.conn × (told.session.closed ≡ told.session.conn.closed)))
Life-answers_example = Life-answers json memory 10 no_text told-Life
