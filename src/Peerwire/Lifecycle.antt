-- ===== src/Peerwire/Lifecycle.antt =====
-- `run` and `connect` of internal/peerwire/conn.go, with the goroutines of a connection and `close`:
-- each statement that another goroutine may see is a step. The two goroutines start in one step,
-- since nothing waits between, and `close` is one step. The length of a wait is in Backoff.
pub mod Sound
pub mod Rank
pub mod Ends
mod Tests
use we_sync.Base.{
  ℕ, ◌+◌, Bool, true, false, not, ◌&&◌, ◌||◌, List, [], ◌∷◌, Option, none, some, if◌then◌else◌,
}

-- Where the goroutine of `run` stands: before its look at `done`, in `connect`, in the wait of the
-- backoff, or at its end.
pub data Phase : Type 0 where
  top dialing : Phase
  dialed : Phase  -- before `c.ws = ws`
  linked : Phase  -- before `connected.Store(true)`
  greeting : Phase  -- before `sendHello`
  starting : Phase  -- before the two goroutines
  reading : Phase
  leaving : Phase  -- before `ws.Close`
  hiding : Phase  -- before `connected.Store(false)`
  cancelling : Phase  -- before `connCancel`
  joining : Phase  -- before `<-writeDone`
  joining_ping : Phase  -- before `<-pingDone`
  clearing : Phase  -- before `c.ws = nil`
  waiting ended : Phase

pub record Conn : Type 0 where
  pub phase : Phase
  pub done : Bool  -- whether the channel is closed
  pub socket : Option Bool  -- of the present `connect`, and whether it is open
  pub stored : Bool  -- `c.ws` is the socket
  pub connected : Bool
  pub pinging : Bool  -- the goroutine runs
  pub writing : Bool
  pub cancelled : Bool  -- `connCtx`
  pub hellos : ℕ  -- that went to an open socket

unfoldable pub new_peer_conn : Conn
new_peer_conn = record {
  phase = top;
  done = false;
  socket = none;
  stored = false;
  connected = false;
  pinging = false;
  writing = false;
  cancelled = false;
  hellos = 0;
}

abbrev pub is_open : Option Bool → Bool
is_open none = false
is_open (some b) = b

-- `ws.Close`.
abbrev pub shut : Conn → Conn
shut c = if is_open c.socket then record c { socket = some false } else c

unfoldable pub close : Conn → Conn
close c =
    let c' = if c.done then c else record c { done = true } in if c'.stored then shut c' else c'

-- The next statement of `run` or `connect`, where it does not wait.
unfoldable pub advance : Phase → Conn → Conn
advance top c = record c { phase = if c.done then ended else dialing }
advance dialed c = record c { phase = linked; stored = true }
advance linked c = record c { phase = greeting; connected = true }
advance greeting c = record c {
  phase = starting;
  hellos = if is_open c.socket then c.hellos + 1 else c.hellos;
}
advance starting c = record c { phase = reading; pinging = true; writing = true; cancelled = false }
advance leaving c = record (shut c) { phase = hiding }
advance hiding c = record c { phase = cancelling; connected = false }
advance cancelling c = record c { phase = joining; cancelled = true }
advance joining c = if c.writing then c else record c { phase = joining_ping }
advance joining_ping c = if c.pinging then c else record c { phase = clearing }
advance clearing c = record c { phase = top; stored = false; socket = none }
advance dialing c = c
advance reading c = c
advance waiting c = c
advance ended c = c

unfoldable pub dial_ended : Bool → Phase → Conn → Conn
dial_ended true dialing c = record c { phase = dialed; socket = some true }
dial_ended false dialing c = record c { phase = waiting }
dial_ended ok p c = c

-- `readLoop` returns.
unfoldable pub read_ended : Phase → Conn → Conn
read_ended reading c = record c { phase = leaving }
read_ended p c = c

-- The wait of the backoff ends, by its timer or a nudge, or as `done` is closed.
unfoldable pub waited : Phase → Conn → Conn
waited waiting c = record c { phase = top }
waited p c = c

unfoldable pub wait_closed : Phase → Conn → Conn
wait_closed waiting c = record c { phase = ended }
wait_closed p c = c

pub data Step : Type 0 where
  closes advances : Step
  dial_ends : (ok : Bool) → Step
  read_fails : Step  -- by the peer, or past the deadline
  read_closed : Step  -- as the socket is closed here
  writer_closes writer_cancelled : Step  -- the two cases by which it returns
  pinger_stops ping_fails : Step
  wait_ends wait_done : Step

-- A step that cannot be taken changes nothing.
unfoldable pub step : Conn → Step → Conn
unfolding close advance dial_ended read_ended waited wait_closed
step c closes = close c
step c advances = advance c.phase c
step c (dial_ends ok) = dial_ended ok c.phase c
step c read_fails = read_ended c.phase c
step c read_closed = if is_open c.socket then c else read_ended c.phase c
step c writer_closes = if c.writing && c.done then record (shut c) { writing = false } else c
step c writer_cancelled = if c.writing && c.cancelled then record c { writing = false } else c
step c pinger_stops =
    if c.pinging && (c.done || c.cancelled) then record c { pinging = false } else c
step c ping_fails = if c.pinging then record c { pinging = false } else c
step c wait_ends = waited c.phase c
step c wait_done = if c.done then wait_closed c.phase c else c

unfoldable pub run : Conn → List Step → Conn
unfolding step
run c [] = c
run c (s ∷ ss) = run (step c s) ss
