-- ===== src/Peerwire/Serve.antt =====
-- Inbound connections: `ServeWS`, the table of `readInbound` and `SetAccepting` of
-- internal/peerwire/hub.go. A connection is a handle; a step is what one goroutine does between two
-- points at which others can run. `CheckOrigin` turns a request with an origin away.
pub mod Silent
use we_sync.Base.{
  ℕ, Bool, true, false, not, ◌&&◌, List, [], ◌∷◌, ◌++◌, String, if◌then◌else◌, ◌is◌, holds, remove,
}
use we_sync.RateLimit.{Limiter, allow, new}

pub record Inbound : Type 0 where
  pub accepting : Bool
  pub conn_limiter : Limiter
  pub passed : List ℕ  -- upgraded by `ServeWS`, and not yet in the table
  pub inbound : List ℕ  -- the table
  pub live : List ℕ  -- sockets that are read from
  pub to_close : List ℕ  -- taken out of the table by `SetAccepting`, to be closed

-- The status that `ServeWS` answers.
pub data Served : Type 0 where
  unavailable too_many refused upgraded : Served

abbrev pub minute : ℕ
minute = 60000000000

-- `NewHub`.
unfoldable pub new_inbound : Inbound
new_inbound = record {
  accepting = true;
  conn_limiter = new 10 minute;
  passed = [];
  inbound = [];
  live = [];
  to_close = [];
}

unfoldable pub serve_ws : Inbound → ℕ → String → String → ℕ → Inbound × Served
serve_ws h n ip origin now =
    let (limiter, ok) = allow h.conn_limiter ip now in
    if not h.accepting
    then (h, unavailable)
    else if not ok
    then (record h { conn_limiter = limiter }, too_many)
    else if not (origin is "")
    then (record h { conn_limiter = limiter }, refused)
    else (record h { conn_limiter = limiter; passed = n ∷ h.passed }, upgraded)

-- The start of `readInbound`.
unfoldable pub register : Inbound → ℕ → Inbound
register h n =
    if holds n h.passed
    then record h { passed = remove n h.passed; inbound = n ∷ h.inbound; live = n ∷ h.live }
    else h

-- The end of `readInbound`: its deferred calls.
unfoldable pub leave : Inbound → ℕ → Inbound
leave h n = record h { inbound = remove n h.inbound; live = remove n h.live }

-- `SetAccepting`: the store, the part under the lock, and the closing of one connection.
unfoldable pub store : Inbound → Bool → Inbound
store h v = record h { accepting = v }

unfoldable pub take_all : Inbound → Inbound
take_all h = record h { inbound = []; to_close = h.inbound ++ h.to_close }

unfoldable pub close_next : Inbound → Inbound
close_next h = elim h.to_close [
  | [] ↦ h
  | n ∷ ns ↦ record h { to_close = ns; live = remove n h.live }
]

pub data Step : Type 0 where
  serves : ℕ → String → String → ℕ → Step
  registers leaves : ℕ → Step
  stores : Bool → Step
  takes closes : Step

unfoldable pub step : Inbound → Step → Inbound
unfolding serve_ws register leave store take_all close_next
step h (serves n ip origin now) = (serve_ws h n ip origin now).0
step h (registers n) = register h n
step h (leaves n) = leave h n
step h (stores v) = store h v
step h takes = take_all h
step h closes = close_next h

unfoldable pub run : Inbound → List Step → Inbound
unfolding step
run h [] = h
run h (s ∷ ss) = run (step h s) ss
