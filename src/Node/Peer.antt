-- ===== src/Node/Peer.antt =====
-- What a node knows of a peer: `discovery.Peer` and `sysinfo.DeviceInfo`, and the addresses that
-- `IsRoutableAddr` of internal/node/state.go accepts.
use we_sync.Base.{
  ℕ, ◌/◌, ◌%◌, Bool, false, not, ◌&&◌, ◌||◌, List, [], ◌∷◌, Option, none, some, String, ◌==◌,
}

pub record Iface : Type 0 where
  pub name : String
  pub mac : String
  pub ips : List String

pub record DeviceInfo : Type 0 where
  pub hostname : String
  pub os : String
  pub os_ver : String
  pub ifaces : List Iface

pub record Peer : Type 0 where
  pub sid : String
  pub addr : String
  pub port : ℕ
  pub device_id : String
  pub name : String
  pub info : Option DeviceInfo

-- The zero value.
abbrev pub zero_peer : Peer
zero_peer = record { sid = ""; addr = ""; port = 0; device_id = ""; name = ""; info = none }

-- What `net.ParseIP` yields: an address that `To4` takes, or the sixteen bytes of another one.
pub data Ip : Type 0 where
  v4 : ℕ → ℕ → ℕ → ℕ → Ip
  v6 : List ℕ → Ip

abbrev is_link_local_unicast : Ip → Bool
is_link_local_unicast (v4 a b c d) = (a == 169) && (b == 254)
is_link_local_unicast (v6 (a ∷ b ∷ bs)) = (a == 0xfe) && (b / 64 == 2)
is_link_local_unicast (v6 _) = false

abbrev is_link_local_multicast : Ip → Bool
is_link_local_multicast (v4 a b c d) = (a == 224) && (b == 0) && (c == 0)
is_link_local_multicast (v6 (a ∷ b ∷ bs)) = (a == 0xff) && (b % 16 == 2)
is_link_local_multicast (v6 _) = false

abbrev is_unique_local_fd : Ip → Bool
is_unique_local_fd (v4 a b c d) = false
is_unique_local_fd (v6 (a ∷ bs)) = a == 0xfd
is_unique_local_fd (v6 []) = false

-- `IsRoutableAddr`, over the parser of addresses of Go's package net.
unfoldable pub is_routable_addr : (String → Option Ip) → String → Bool
is_routable_addr parse_ip addr = elim (parse_ip addr) [
  | none ↦ false
  | some ip ↦
      not (is_link_local_unicast ip || is_link_local_multicast ip) && not (is_unique_local_fd ip)
]
