-- ===== src/Peerwire/Sending.antt =====
-- What a hub sends of its own accord: `SendSync`, `SendHelloTo`, `BroadcastHello`, `BroadcastPeerState`
-- and `PeerAddr` of internal/peerwire/hub.go, `send` and `dialWS` of internal/peerwire/conn.go.
pub mod Timeout
use we_sync.Base.{
  ℕ, zero, suc, ◌-◌, ◌+◌, ◌*◌, ◌&&◌, Bool, true, false, not, List, [], ◌∷◌, ◌++◌, map, Option, none,
  some, String, Map, lookup, if◌then◌else◌, ◌is◌, ◌==◌, ltb, length,
}
use we_sync.Peerwire.Message.{Message, hello, peer_state}
use we_sync.Peerwire.Offers.{Self, no_message, hello_message}
use we_sync.Peerwire.Hub.{Conn}

abbrev pub millisecond : ℕ
millisecond = 1000000

abbrev pub retry_wait : ℕ
retry_wait = 10 * millisecond

pub data Sent : Type 0 where
  delivered no_connection timed_out still_trying : Sent

-- What a round of `SendSync` meets: whether there is a connection, whether the write succeeds, and how
-- long it takes.
pub record Round : Type 0 where
  pub is_connected : Bool
  pub writes : Bool
  pub spent : ℕ

abbrev pub shorter : ℕ → ℕ → ℕ
shorter a b = if ltb b a then b else a

-- The loop, with the time that remains, on as many rounds as there are answers.
unfoldable pub send_sync : List Round → ℕ → Sent
send_sync [] remaining = still_trying
send_sync (r ∷ rs) remaining =
    let rest = send_sync rs (remaining - (r.spent + shorter retry_wait remaining)) in
    if not r.is_connected
    then no_connection
    else if remaining == 0
    then timed_out
    else if r.writes
    then delivered
    else rest

-- `SendHelloTo`: the message, which says of every device whether it is trusted.
unfoldable pub hello_to : Self → Bool → Message
hello_to s is_trusted = hello_message s (some is_trusted)

-- `BroadcastHello` and `BroadcastPeerState`: the messages.
unfoldable pub broadcast_hello : Self → Message
broadcast_hello s = hello_message s none

unfoldable pub broadcast_peer_state : Self → Message
broadcast_peer_state s = record no_message {
  kind = peer_state;
  device_id = s.self_id;
  name = s.self_name;
  info = some s.self_info;
}

abbrev pub send_queue : ℕ
send_queue = 64

-- `send`: a message to a connection whose queue is full is dropped.
unfoldable pub send : Message → List Message → List Message
send msg queue = if ltb (length queue) send_queue then queue ++ (msg ∷ []) else queue

-- A broadcast to the queues of all connections.
unfoldable pub send_all : Message → List (List Message) → List (List Message)
unfolding send
send_all msg queues = map (send msg) queues

-- `PeerAddr`: the address, the port and whether the connection is up. The loop takes an order of the
-- keys.
unfoldable pub peer_addr_among : Map Conn → List String → String → Option (String × (ℕ × Bool))
peer_addr_among conns [] dev = none
peer_addr_among conns (k ∷ ks) dev =
    let rest = peer_addr_among conns ks dev in
    elim (lookup k conns) [
      | none ↦ rest
      | some c ↦ if c.remote_device_id is dev then some (c.addr, (c.port, c.connected)) else rest
    ]

unfoldable pub peer_addr : Map Conn → List String → String → Option (String × (ℕ × Bool))
unfolding peer_addr_among
peer_addr conns order dev = elim (lookup dev conns) [
  | some c ↦ some (c.addr, (c.port, c.connected))
  | none ↦ peer_addr_among conns order dev
]

-- The time that `dialWS` gives an attempt, and the loop over the source addresses: the first dial that
-- succeeds, and how long all of it takes. A dial takes what it does, and no more than its time.
abbrev pub second : ℕ
second = 1000000000

unfoldable pub per_attempt : ℕ → ℕ
per_attempt candidates = if ltb 1 candidates then 6 * second else 15 * second

pub record Dial : Type 0 where
  pub source : Option ℕ
  pub succeeds : Bool
  pub takes : ℕ

unfoldable pub dial_each : ℕ → List Dial → Option (Option ℕ) × ℕ
dial_each limit [] = (none, 0)
dial_each limit (d ∷ ds) =
    let (found, later) = dial_each limit ds in
    let spent = shorter d.takes limit in
    if d.succeeds && not (ltb limit d.takes) then (some d.source, spent) else (found, spent + later)

unfoldable pub dial_ws : List Dial → Option (Option ℕ) × ℕ
unfolding dial_each per_attempt
dial_ws ds = dial_each (per_attempt (length ds)) ds
