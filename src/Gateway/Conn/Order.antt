-- ===== src/Gateway/Conn/Order.antt =====
-- In which order, and up to where, internal/gateway/client_conn.go writes what it has accepted.
use mathlib.Core.List.{append_assoc, append-nil}
use nexo_im.Base.{
  ◌<◌, Text, Bool, true, false, none, some, List, [], ◌∷◌, ◌++◌, length, length-append, ◌≤◌, ◌≡◌,
  arith, ◌||◌, refl,
}
use nexo_im.Gateway.Conn.{
  Frame, binary, ping, close_message, WriteError, Conn, write_message, close_channel, signal,
  LoopStep, sends, send_fails, says_goodbye, goodbye_fails, pings, ping_fails, stops, Run, opens,
  loops, accepts, refuses, closes, signals, write_channel_size,
}

-- The messages among the frames.
abbrev pub payloads : List Frame → List Text
payloads [] = []
payloads (binary m ∷ fs) = m ∷ payloads fs
payloads (ping ∷ fs) = payloads fs
payloads (close_message ∷ fs) = payloads fs

abbrev pub says_close : List Frame → Bool
says_close [] = false
says_close (binary m ∷ fs) = says_close fs
says_close (ping ∷ fs) = says_close fs
says_close (close_message ∷ fs) = true

payloads-append : (fs gs : List Frame) → payloads (fs ++ gs) ≡ payloads fs ++ payloads gs
payloads-append [] gs = refl
payloads-append (binary m ∷ fs) gs = ground (arith, payloads-append fs gs)
payloads-append (ping ∷ fs) gs = payloads-append fs gs
payloads-append (close_message ∷ fs) gs = payloads-append fs gs

says_close-append : (fs gs : List Frame) → says_close (fs ++ gs) ≡ (says_close fs || says_close gs)
says_close-append [] gs = refl
says_close-append (binary m ∷ fs) gs = says_close-append fs gs
says_close-append (ping ∷ fs) gs = says_close-append fs gs
says_close-append (close_message ∷ fs) gs = refl

-- The messages on the socket are the first of those accepted, in order, and `rest` are those that are
-- missing; they wait in the queue while the loop runs. The queue holds at most 256. The peer is told
-- of the end only when nothing is missing.
pub record IsOrdered (accepted : List Text) (c : Conn) : Type 0 where
  pub rest : List Text
  pub prefix : accepted ≡ payloads c.written ++ rest
  pub waiting : c.running ≡ true → c.queue ≡ rest
  pub bound : length c.queue ≤ write_channel_size
  pub complete : says_close c.written ≡ true → rest ≡ []
  pub over : says_close c.written ≡ true → (c.closed ≡ true) × (c.running ≡ false)

-- The loop returns without writing.
halted-IsOrdered :
    {accepted : List Text} {c : Conn}
    → IsOrdered accepted c
    → IsOrdered accepted (record c { running = false })
halted-IsOrdered v = record {
  rest = v.rest;
  prefix = v.prefix;
  waiting = λ e. cc;
  bound = v.bound;
  complete = v.complete;
  over = λ e. ground (arith, v.over e);
}

loop_step-IsOrdered :
    {accepted : List Text} {c d : Conn} → IsOrdered accepted c → LoopStep c d → IsOrdered accepted d
loop_step-IsOrdered {accepted} {c} v (sends m ms on q) = record {
  rest = ms;
  prefix = ground (
    arith,
    payloads-append c.written (binary m ∷ []),
    append_assoc (payloads c.written) (m ∷ []) ms,
  );
  waiting = λ e. refl;
  bound = ground arith;
  complete = λ e. ground (arith, says_close-append c.written (binary m ∷ []));
  over = λ e. ground (arith, says_close-append c.written (binary m ∷ []));
}
loop_step-IsOrdered v (send_fails m ms on q) = record {
  rest = v.rest;
  prefix = v.prefix;
  waiting = λ e. cc;
  bound = ground arith;
  complete = v.complete;
  over = λ e. ground (arith, v.over e);
}
loop_step-IsOrdered {accepted} {c} v (says_goodbye on cl q) = record {
  rest = [];
  prefix = ground (
    arith,
    v.waiting on,
    append-nil (payloads c.written),
    payloads-append c.written (close_message ∷ []),
  );
  waiting = λ e. cc;
  bound = v.bound;
  complete = λ e. refl;
  over = λ e. (cl, refl);
}
loop_step-IsOrdered v (goodbye_fails on cl q) = halted-IsOrdered v
loop_step-IsOrdered {accepted} {c} v (pings on) = record {
  rest = v.rest;
  prefix = ground (arith, append-nil (payloads c.written), payloads-append c.written (ping ∷ []));
  waiting = v.waiting;
  bound = v.bound;
  complete = λ e. ground (arith, says_close-append c.written (ping ∷ []), v.complete);
  over = λ e. ground (arith, says_close-append c.written (ping ∷ []), v.over);
}
loop_step-IsOrdered v (ping_fails on) = halted-IsOrdered v
loop_step-IsOrdered v (stops on s) = halted-IsOrdered v

-- What an accepted message does to the queue.
accepted_cases :
    (m : Text) (c : Conn)
    → (write_message m c).0 ≡ none
    → (c.closed ≡ false)
      × (length c.queue < write_channel_size)
      × ((write_message m c).1 ≡ record c { queue = c.queue ++ m ∷ [] })
unfolding write_message
accepted_cases m c h = ground arith

refused_same :
    (m : Text) (c : Conn) (e : WriteError)
    → (write_message m c).0 ≡ some e
    → (write_message m c).1 ≡ c
unfolding write_message
refused_same m c e h = ground arith

enqueued-IsOrdered :
    (m : Text) (accepted : List Text) (c : Conn)
    → c.closed ≡ false
    → length c.queue < write_channel_size
    → IsOrdered accepted c
    → IsOrdered (accepted ++ m ∷ []) (record c { queue = c.queue ++ m ∷ [] })
enqueued-IsOrdered m accepted c o room v = record {
  rest = v.rest ++ m ∷ [];
  prefix = ground (arith, append_assoc (payloads c.written) v.rest (m ∷ []));
  waiting = λ e. ground (arith, v.waiting e);
  bound = omega (arith, length-append {0} c.queue (m ∷ []));
  complete = λ e. ground (arith, v.over e);
  over = λ e. ground (arith, v.over e);
}

-- Through the whole life of a connection, whatever the loop and its callers do, the messages on the
-- socket are a first part of those accepted, in order, what is missing is the queue as long as the
-- loop runs, the queue holds at most 256 messages, and where the close frame was written, nothing is
-- missing, the connection is closed and the loop has returned.
pub Run-IsOrdered : {accepted : List Text} {c : Conn} → Run accepted c → IsOrdered accepted c
unfolding close_channel signal
Run-IsOrdered opens = record {
  rest = [];
  prefix = refl;
  waiting = λ e. refl;
  bound = omega arith;
  complete = λ e. refl;
  over = λ e. cc;
}
Run-IsOrdered (loops r st) = loop_step-IsOrdered (Run-IsOrdered r) st
Run-IsOrdered (accepts {accepted} {c} m r h) =
    let (o, room, e) = accepted_cases m c h in
    rw e (enqueued-IsOrdered m accepted c o room (Run-IsOrdered r))
Run-IsOrdered (refuses {accepted} {c} m e r h) = rw (refused_same m c e h) (Run-IsOrdered r)
Run-IsOrdered (closes r) =
    let v = Run-IsOrdered r in
    record {
      rest = v.rest;
      prefix = v.prefix;
      waiting = v.waiting;
      bound = v.bound;
      complete = v.complete;
      over = λ e. (refl, (v.over e).1);
    }
Run-IsOrdered (signals r cl) =
    let v = Run-IsOrdered r in
    record {
      rest = v.rest;
      prefix = v.prefix;
      waiting = v.waiting;
      bound = v.bound;
      complete = v.complete;
      over = v.over;
    }
