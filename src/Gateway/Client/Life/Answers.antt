-- ===== src/Gateway/Client/Life/Answers.antt =====
-- What a client of internal/gateway/client.go finds on its socket, through its whole life.
use nexo_im.Base.{
  ℕ, Text, some, List, [], ◌∷◌, ◌++◌, ◌≡◌, refl, Bool-cases, Option-cases, inl, inr, arith,
}
use nexo_im.Errors.{Failure}
use nexo_im.Backend.{Backend}
use nexo_im.Gateway.Conn.{
  Conn, new_conn, LoopStep, sends, send_fails, says_goodbye, goodbye_fails, pings, ping_fails,
  stops, close_channel, signal, write_message, Run, opens, accepts, refuses,
}
use nexo_im.Gateway.Conn
use nexo_im.Gateway.Conn.Order.{IsOrdered, Run-IsOrdered}
use nexo_im.Gateway.Wire.{Json, WsResponse, MessageData}
use nexo_im.Gateway.Client.{
  Session, Peer, push_message, write_response, kick_response, push_response, ws_push_msg,
}
use nexo_im.Gateway.Client.Replies.{Echoes, handle_message-Answered}
use nexo_im.Gateway.Client.Life.{
  Cause, request, push, kick, Life, starts, receives, pushes, kicks, closes, signals, loops,
}

module _ (json : Json) (b : Backend) (capacity : ℕ) (error_text : Failure → Text) where
  -- A response belongs to what it was written for.
  abbrev pub Belongs : Cause → WsResponse → Type 0
  Belongs (request m) resp = Echoes json b capacity error_text (json.decode_request m).0 resp
  Belongs (push msg) resp = resp.req_identifier ≡ ws_push_msg
  Belongs kick resp = resp ≡ kick_response

  -- The texts are encoded responses, one at most for each cause, in the order of the causes.
  pub data Explains : List Cause → List Text → Type 0 where
    nothing : Explains [] []
    unsent :
        {causes : List Cause} {texts : List Text} (cause : Cause)
        → Explains causes texts
        → Explains (causes ++ cause ∷ []) texts
    sent :
        {causes : List Cause} {texts : List Text} (cause : Cause) (resp : WsResponse) (t : Text)
        → Explains causes texts
        → Belongs cause resp
        → json.encode_response resp ≡ some t
        → Explains (causes ++ cause ∷ []) (texts ++ t ∷ [])

  pub record Told (causes : List Cause) (s : Session) : Type 0 where
    pub texts : List Text
    pub explained : Explains causes texts
    pub run : Run texts s.conn
    pub agree : s.closed ≡ s.conn.closed

  same_closed : (t : Text) (c : Conn) → (write_message t c).1.closed ≡ c.closed
  unfolding write_message
  same_closed t c = ground arith

  not_sent :
      {causes : List Cause} {s : Session} (cause : Cause)
      → Told causes s
      → Told (causes ++ cause ∷ []) s
  not_sent cause told = record {
    texts = told.texts;
    explained = unsent cause told.explained;
    run = told.run;
    agree = told.agree;
  }

  queued :
      {causes : List Cause} {s : Session} (cause : Cause) (resp : WsResponse) (t : Text)
      → Belongs cause resp
      → json.encode_response resp ≡ some t
      → Told causes s
      → Told (causes ++ cause ∷ []) (record s { conn = (write_message t s.conn).1 })
  queued {causes} {s} cause resp t own encoded told =
      let agree : s.closed ≡ (write_message t s.conn).1.closed =
        ground (arith, told.agree, same_closed t s.conn) in
      elim (Option-cases (write_message t s.conn).0) [
        | inl taken ↦ record {
          texts = told.texts ++ t ∷ [];
          explained = sent cause resp t told.explained own encoded;
          run = accepts t told.run taken;
          agree = agree;
        }
        | inr (e, full) ↦ record {
          texts = told.texts;
          explained = unsent cause told.explained;
          run = refuses t e told.run full;
          agree = agree;
        }
      ]

  -- A response is queued, or refused, or not even tried.
  written :
      {causes : List Cause} {s : Session} (cause : Cause) (resp : WsResponse)
      → Belongs cause resp
      → Told causes s
      → Told (causes ++ cause ∷ []) (write_response json resp s).1
  unfolding write_response
  written {causes} {s} cause resp own told = elim (Bool-cases s.closed) [
    | inl over ↦ simp over (not_sent cause told)
    | inr still_open ↦ simp still_open (elim (Option-cases (json.encode_response resp)) [
      | inl failed ↦ simp failed (not_sent cause told)
      | inr (t, encoded) ↦ simp encoded (queued cause resp t own encoded told)
    ])
  ]

  pushed :
      {causes : List Cause} {s : Session} (msg : MessageData)
      → Told causes s
      → Told (causes ++ push msg ∷ []) (push_message json msg s).1
  unfolding push_message
  pushed {causes} {s} msg told = elim (Bool-cases s.closed) [
    | inl over ↦ simp over (not_sent (push msg) told)
    | inr still_open ↦
        simp still_open
          (elim (Option-cases
            (json.encode_push_msg (record { conversation_id = msg.conversation_id; msg = msg }))) [
              | inl failed ↦ simp failed (not_sent (push msg) told)
              | inr (t, encoded) ↦ simp encoded (written (push msg) (push_response t) refl told)
            ])
  ]

  loop_step-closed : {c d : Conn} → LoopStep c d → d.closed ≡ c.closed
  loop_step-closed (sends m ms on q) = refl
  loop_step-closed (send_fails m ms on q) = refl
  loop_step-closed (says_goodbye on cl q) = refl
  loop_step-closed (goodbye_fails on cl q) = refl
  loop_step-closed (pings on) = refl
  loop_step-closed (ping_fails on) = refl
  loop_step-closed (stops on s) = refl

  told_of :
      {causes : List Cause} {p : Peer b.World}
      → Life json b capacity error_text causes p
      → Told causes p.session
  unfolding close_channel signal
  told_of (starts client n) = record { texts = []; explained = nothing; run = opens; agree = refl }
  told_of (receives {causes} {p} m life) =
      let ((resp, own, _, session), _, _) =
        handle_message-Answered json b capacity error_text m p in
      rw session (written (request m) resp own (told_of life))
  told_of (pushes msg life) = pushed msg (told_of life)
  told_of (kicks life) = written kick kick_response refl (told_of life)
  told_of (closes life) =
      let told = told_of life in
      record {
        texts = told.texts;
        explained = told.explained;
        run = Conn.closes told.run;
        agree = refl;
      }
  told_of (signals life closed) =
      let told = told_of life in
      record {
        texts = told.texts;
        explained = told.explained;
        run = Conn.signals told.run closed;
        agree = told.agree;
      }
  told_of (loops life step) =
      let told = told_of life in
      record {
        texts = told.texts;
        explained = told.explained;
        run = Conn.loops told.run step;
        agree = ground (arith, told.agree, loop_step-closed step);
      }

  -- Through the whole life of a client, whatever it is asked, pushed and told, and whatever its
  -- write loop does, in any order: the messages on the socket are a first part of texts that are
  -- encoded responses, one at most for each cause and in the order of the causes; what was written
  -- for a request carries its identifier, its counter and its operation id. What is missing on the
  -- socket waits in the queue, of 256 at most, as long as the loop runs; nothing is missing where the
  -- close frame was written; and the client is closed exactly if its connection is.
  pub Life-answers :
      {causes : List Cause} {p : Peer b.World}
      → Life json b capacity error_text causes p
      → (texts : List Text) × (Explains causes texts
          × (IsOrdered texts p.session.conn × (p.session.closed ≡ p.session.conn.closed)))
  Life-answers life =
      let told = told_of life in
      (told.texts, (told.explained, (Run-IsOrdered told.run, told.agree)))
