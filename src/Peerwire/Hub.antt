-- ===== src/Peerwire/Hub.antt =====
-- The outbound connections of internal/peerwire/hub.go. A connection is known by a handle, which
-- stands for its goroutine `run`: the goroutine ends when its connection is closed. The state of a
-- socket reaches the table by `link` and `learn`. A loop over the map takes an order of its keys.
pub mod Leak
pub mod Entries
pub mod Moves
use we_sync.Base.{
  ℕ, suc, Bool, true, false, not, ◌&&◌, ◌||◌, List, [], ◌∷◌, ◌++◌, Option, none, some, String, Map,
  lookup, insert, delete, has, if◌then◌else◌, ◌is◌, ◌==◌,
}

pub record Conn : Type 0 where
  pub handle : ℕ
  pub device_id : String
  pub addr : String
  pub port : ℕ
  pub connected : Bool
  pub remote_device_id : String
  pub nudged : Bool

pub record Hub : Type 0 where
  pub conns : Map Conn
  pub closed : List ℕ
  pub next : ℕ

abbrev pub new_conn : ℕ → String → String → ℕ → Conn
new_conn h key addr port = record {
  handle = h;
  device_id = key;
  addr = addr;
  port = port;
  connected = false;
  remote_device_id = "";
  nudged = false;
}

-- `newPeerConn`, the entry of the map, and `go c.run()`.
unfoldable pub start : Hub → String → String → ℕ → Hub
start hub key addr port = record hub {
  conns = insert key (new_conn hub.next key addr port) hub.conns;
  next = suc hub.next;
}

abbrev pub close : Hub → Conn → Hub
close hub c = record hub { closed = c.handle ∷ hub.closed }

-- `nudge` of the connection under a key.
unfoldable pub nudge : Hub → String → Conn → Hub
nudge hub key c = record hub { conns = insert key (record c { nudged = true }) hub.conns }

abbrev pub is_to : Conn → String → ℕ → Bool
is_to c addr port = (c.addr is addr) && (c.port == port)

unfoldable pub connect : Hub → String → String → ℕ → Hub
unfolding start nudge
connect hub dev addr port = elim (lookup dev hub.conns) [
  | none ↦ start hub dev addr port
  | some c ↦
      if c.connected
      then hub
      else if is_to c addr port
      then nudge hub dev c
      else start (close hub c) dev addr port
]

-- The first connection to an endpoint in an order of the keys.
unfoldable pub endpoint_of : Map Conn → List String → String → ℕ → Option (String × Conn)
endpoint_of m [] addr port = none
endpoint_of m (k ∷ ks) addr port = elim (lookup k m) [
  | none ↦ endpoint_of m ks addr port
  | some c ↦ if is_to c addr port then some (k, c) else endpoint_of m ks addr port
]

abbrev is_live : Option Conn → Bool
is_live none = false
is_live (some c) = c.connected

unfoldable pub connect_by_sid : Hub → List String → String → String → ℕ → Hub × Bool
unfolding start nudge endpoint_of
connect_by_sid hub order sid addr port =
    if is_live (lookup sid hub.conns)
    then (hub, false)
    else (elim (endpoint_of hub.conns order addr port) [
      | some found ↦ (if found.1.connected then hub else nudge hub found.0 found.1, false)
      | none ↦ (elim (lookup sid hub.conns) [
        | none ↦ (start hub sid addr port, true)
        | some c ↦ (start (close hub c) sid addr port, true)
      ])
    ])

unfoldable pub drop_untrusted_sid : Hub → String → (String → Bool) → Hub
drop_untrusted_sid hub sid is_trusted = elim (lookup sid hub.conns) [
  | none ↦ hub
  | some c ↦
      let dev_id = if c.remote_device_id is "" then c.device_id else c.remote_device_id in
      if not (dev_id is "") && not (dev_id is sid) && is_trusted dev_id
      then hub
      else record (close hub c) { conns = delete sid hub.conns }
]

-- The entry moves to another key.
unfoldable pub rekey : Hub → String → String → Conn → Hub
rekey hub old dev c = record hub {
  conns = insert dev (record c { device_id = dev }) (delete old hub.conns);
}

unfoldable pub adopt_conn : Hub → String → String → Hub
unfolding rekey
adopt_conn hub old dev =
    if (old is dev) || (old is "") || (dev is "") then hub else (elim (lookup old hub.conns) [
      | none ↦ hub
      | some c ↦
          if is_live (lookup dev hub.conns)
          then record (close hub c) { conns = delete old hub.conns }
          else rekey hub old dev c
    ])

-- The first connection to an address that is not known to be another device's.
unfoldable pub adoptable_of : Map Conn → List String → String → String → Option (String × Conn)
adoptable_of m [] addr dev = none
adoptable_of m (k ∷ ks) addr dev = elim (lookup k m) [
  | none ↦ adoptable_of m ks addr dev
  | some c ↦
      if not (c.addr is addr) || (not (c.remote_device_id is "") && not (c.remote_device_id is dev))
      then adoptable_of m ks addr dev
      else some (k, c)
]

unfoldable pub adopt_conn_by_addr : Hub → List String → String → String → Hub
unfolding rekey adoptable_of
adopt_conn_by_addr hub order addr dev =
    if (addr is "") || (dev is "") then hub else (elim (lookup dev hub.conns) [
      | some c ↦ hub
      | none ↦ (elim (adoptable_of hub.conns order addr dev) [
        | none ↦ hub
        | some found ↦ rekey hub found.0 dev found.1
      ])
    ])

unfoldable pub disconnect : Hub → String → Hub
disconnect hub dev = elim (lookup dev hub.conns) [
  | none ↦ hub
  | some c ↦ record (close hub c) { conns = delete dev hub.conns }
]

-- `DisconnectExcept`: the loop over the entries.
unfoldable pub kept_of : Map Bool → Map Conn → Map Conn
kept_of keep [] = []
kept_of keep ((k, c) ∷ m) = if has k keep then (k, c) ∷ kept_of keep m else kept_of keep m

unfoldable pub dropped_of : Map Bool → Map Conn → List ℕ
dropped_of keep [] = []
dropped_of keep ((k, c) ∷ m) =
    if has k keep then dropped_of keep m else c.handle ∷ dropped_of keep m

unfoldable pub disconnect_except : Hub → Map Bool → Hub
unfolding kept_of dropped_of
disconnect_except hub keep = record hub {
  conns = kept_of keep hub.conns;
  closed = dropped_of keep hub.conns ++ hub.closed;
}

unfoldable pub disconnect_all : Hub → Hub
unfolding disconnect_except
disconnect_all hub = disconnect_except hub []

-- The goroutine of the connection `h` has connected or lost its socket, or learnt from the dial whose
-- certificate the peer has.
unfoldable pub link : ℕ → Bool → Map Conn → Map Conn
link h on [] = []
link h on ((k, c) ∷ m) = (k, if c.handle == h then record c { connected = on } else c) ∷ link h on m

unfoldable pub learn : ℕ → String → Map Conn → Map Conn
learn h dev [] = []
learn h dev ((k, c) ∷ m) =
    (k, if c.handle == h then record c { remote_device_id = dev } else c) ∷ learn h dev m
