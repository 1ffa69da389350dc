-- ===== src/Gateway/Conn.antt =====
-- internal/gateway/client_conn.go: the queue of a connection and its write loop. `select` takes any
-- case that is ready, so the loop is a relation. What travels on the socket is listed in `written`.
pub mod Order
use nexo_im.Base.{
  ℕ, Text, Bool, true, false, Option, none, some, List, [], ◌∷◌, ◌++◌, if◌then◌else◌, ltb, length,
  ◌≡◌,
}

pub data Frame : Type 0 where
  binary : Text → Frame
  ping close_message : Frame

pub data WriteError : Type 0 where
  conn_closed write_channel_full : WriteError

abbrev pub write_channel_size : ℕ
write_channel_size = 256

-- `signalled`: closeChan is closed. `running`: the write loop has not returned.
pub record Conn : Type 0 where
  pub queue : List Text
  pub closed : Bool
  pub signalled : Bool
  pub running : Bool
  pub written : List Frame

abbrev pub new_conn : Conn
new_conn = record { queue = []; closed = false; signalled = false; running = true; written = [] }

unfoldable pub write_message : Text → Conn → Option WriteError × Conn
write_message message c =
    if c.closed
    then (some conn_closed, c)
    else if ltb (length c.queue) write_channel_size
    then (none, record c { queue = c.queue ++ message ∷ [] })
    else (some write_channel_full, c)

-- The two halves of `Close`, which runs once: the channel of messages is closed under the lock, then
-- the loop is told.
unfoldable pub close_channel : Conn → Conn
close_channel c = record c { closed = true }

unfoldable pub signal : Conn → Conn
signal c = record c { signalled = true }

unfoldable pub close : Conn → Conn
unfolding close_channel signal
close c = if c.closed then c else signal (close_channel c)

-- One round of the write loop.
pub data LoopStep : Conn → Conn → Type 0 where
  sends :
      {c : Conn} (m : Text) (ms : List Text)
      → c.running ≡ true
      → c.queue ≡ m ∷ ms
      → LoopStep c (record c { queue = ms; written = c.written ++ binary m ∷ [] })
  send_fails :
      {c : Conn} (m : Text) (ms : List Text)
      → c.running ≡ true
      → c.queue ≡ m ∷ ms
      → LoopStep c (record c { queue = ms; running = false })
  says_goodbye :
      {c : Conn}
      → c.running ≡ true
      → c.closed ≡ true
      → c.queue ≡ []
      → LoopStep c (record c { running = false; written = c.written ++ close_message ∷ [] })
  goodbye_fails :
      {c : Conn}
      → c.running ≡ true
      → c.closed ≡ true
      → c.queue ≡ []
      → LoopStep c (record c { running = false })
  pings : {c : Conn} → c.running ≡ true → LoopStep c (record c { written = c.written ++ ping ∷ [] })
  ping_fails : {c : Conn} → c.running ≡ true → LoopStep c (record c { running = false })
  stops :
      {c : Conn} → c.running ≡ true → c.signalled ≡ true → LoopStep c (record c { running = false })

-- The life of a connection, with the messages that WriteMessage has accepted.
pub data Run : List Text → Conn → Type 0 where
  opens : Run [] new_conn
  loops : {accepted : List Text} {c d : Conn} → Run accepted c → LoopStep c d → Run accepted d
  accepts :
      {accepted : List Text} {c : Conn} (m : Text)
      → Run accepted c
      → (write_message m c).0 ≡ none
      → Run (accepted ++ m ∷ []) (write_message m c).1
  refuses :
      {accepted : List Text} {c : Conn} (m : Text) (e : WriteError)
      → Run accepted c
      → (write_message m c).0 ≡ some e
      → Run accepted (write_message m c).1
  closes : {accepted : List Text} {c : Conn} → Run accepted c → Run accepted (close_channel c)
  signals :
      {accepted : List Text} {c : Conn} → Run accepted c → c.closed ≡ true → Run accepted (signal c)
