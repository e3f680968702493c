-- ===== src/Node/State.antt =====
-- internal/node/state.go. A method that takes the lock for writing returns the new state; a read
-- returns the value itself, since a model's values are never shared.
use we_sync.Base.{
  ℕ, Bool, true, false, not, ◌&&◌, ◌||◌, List, [], ◌∷◌, Option, none, some, String, Map, lookup,
  insert, delete, has, or_else, if◌then◌else◌, any, ◌is◌, ◌==◌, ℤ, prefix,
}
use we_sync.Node.Peer.{DeviceInfo, Peer, zero_peer, Ip, is_routable_addr}

-- `completion` is a float there; here it is a count of some fixed part of a percent.
pub record FolderPeerInfo : Type 0 where
  pub need : Bool
  pub need_bytes : ℤ
  pub need_items : ℤ
  pub completion : ℕ
  pub remote_state : String
  pub stalled : Bool

pub record State : Type 0 where
  pub name : String
  pub peers : Map Peer
  pub peer_cert_fp : Map String
  pub trusted_ids : Map Bool
  pub they_trust_us : Map Bool
  pub explicitly_removed : Map Bool
  pub folder_accepted : Map (Map Bool)
  pub wire_accepted : Map (Map Bool)
  pub folder_peer : Map (Map FolderPeerInfo)
  pub device_last_seen : Map ℕ

unfoldable pub new : State
new = record {
  name = "";
  peers = [];
  peer_cert_fp = [];
  trusted_ids = [];
  they_trust_us = [];
  explicitly_removed = [];
  folder_accepted = [];
  wire_accepted = [];
  folder_peer = [];
  device_last_seen = [];
}

pub record DeviceName : Type 0 where
  pub id : String
  pub name : String

unfoldable pub is_trusted : State → String → Bool
is_trusted s id = has id s.trusted_ids

unfoldable pub is_mutually_trusted : State → String → Bool
is_mutually_trusted s id = has id s.trusted_ids && has id s.they_trust_us

unfoldable pub is_explicitly_removed : State → String → Bool
is_explicitly_removed s id = has id s.explicitly_removed

unfoldable pub trust : State → String → State
trust s id = record s {
  trusted_ids = insert id true s.trusted_ids;
  explicitly_removed = delete id s.explicitly_removed;
}

unfoldable pub untrust : State → String → State
untrust s id = record s {
  trusted_ids = delete id s.trusted_ids;
  they_trust_us = delete id s.they_trust_us;
  explicitly_removed = insert id true s.explicitly_removed;
}

unfoldable pub set_they_trust_us : State → String → Bool → State
set_they_trust_us s id v = record s {
  they_trust_us = if v then insert id true s.they_trust_us else delete id s.they_trust_us;
}

unfoldable pub set_peer_cert_fp : State → String → String → State
set_peer_cert_fp s id fp = record s { peer_cert_fp = insert id fp s.peer_cert_fp }

-- `shortID`.
unfoldable pub short_id : String → String
short_id id = prefix 7 id

-- `MergePeer` with a usable address: the upsert of the peer's entry.
unfoldable pub merged_peer :
    (String → Option Ip) → Option Peer → String → String → String → ℕ → Option DeviceInfo → Peer
merged_peer parse_ip old device_id name addr port info = elim old [
  | none ↦ record {
    sid = "";
    addr = addr;
    port = port;
    device_id = device_id;
    name = if name is "" then short_id device_id else name;
    info = info;
  }
  | some p ↦ record {
    sid = "";
    addr = if not (is_routable_addr parse_ip addr) && not (p.addr is "") then p.addr else addr;
    port = port;
    device_id = device_id;
    name = if (name is "") && not (p.name is "") then p.name else name;
    info = elim info [ none ↦ p.info | some i ↦ some i ];
  }
]

unfoldable pub merge_peer :
    (String → Option Ip) → State → String → String → String → ℕ → Option DeviceInfo → State
unfolding merged_peer
merge_peer parse_ip s device_id name addr port info =
    if (addr is "") || (port == 0)
    then (if name is "" then s else (elim (lookup device_id s.peers) [
      | none ↦ s
      | some p ↦ record s { peers = insert device_id (record p { name = name }) s.peers }
    ]))
    else record s {
      peers =
          insert device_id
            (merged_peer parse_ip (lookup device_id s.peers) device_id name addr port info) s.peers;
    }

unfoldable pub add_peer_if_absent : State → Peer → State
add_peer_if_absent s p = elim (lookup p.device_id s.peers) [
  | none ↦ record s { peers = insert p.device_id p s.peers }
  | some _ ↦ s
]

unfoldable pub set_peer_name_info : State → String → String → Option DeviceInfo → State
set_peer_name_info s device_id name info =
    let p = or_else zero_peer (lookup device_id s.peers) in
    record s {
      peers =
          insert device_id
            (record p {
              device_id = device_id;
              name = if name is "" then p.name else name;
              info = elim info [ none ↦ p.info | some i ↦ some i ];
            })
            s.peers;
    }

unfoldable pub set_peer_name_if_empty : State → String → String → State
set_peer_name_if_empty s device_id name =
    let p = or_else zero_peer (lookup device_id s.peers) in
    if name is "" then s else record s {
      peers =
          insert device_id
            (record p { device_id = device_id; name = if p.name is "" then name else p.name })
            s.peers;
    }

unfoldable pub replace_folder_accepted : State → Map (Map Bool) → State
replace_folder_accepted s next = record s { folder_accepted = next }

unfoldable pub replace_folder_peer_info : State → Map (Map FolderPeerInfo) → State
replace_folder_peer_info s next = record s { folder_peer = next }

unfoldable pub replace_device_last_seen : State → Map ℕ → State
replace_device_last_seen s next = record s { device_last_seen = next }

-- `WireAccepted` and `FolderAccepted`: the set of one folder.
unfoldable pub wire_accepted : State → String → Map Bool
wire_accepted s folder_id = or_else [] (lookup folder_id s.wire_accepted)

unfoldable pub folder_accepted : State → String → Map Bool
folder_accepted s folder_id = or_else [] (lookup folder_id s.folder_accepted)

unfoldable pub set_wire_accepted : State → String → String → Bool → State
unfolding wire_accepted
set_wire_accepted s folder_id device_id v = record s {
  wire_accepted = insert folder_id (insert device_id v (wire_accepted s folder_id)) s.wire_accepted;
}

unfoldable pub reset_accepted : State → String → String → State
reset_accepted s folder_id device_id = record s {
  wire_accepted = (elim (lookup folder_id s.wire_accepted) [
    | none ↦ s.wire_accepted
    | some m ↦ insert folder_id (delete device_id m) s.wire_accepted
  ]);
  folder_accepted = (elim (lookup folder_id s.folder_accepted) [
    | none ↦ s.folder_accepted
    | some m ↦ insert folder_id (insert device_id false m) s.folder_accepted
  ]);
}

pub record TrustSignalOutcome : Type 0 where
  pub reassert_removal : Bool
  pub dismiss_pending : Bool
  pub cascade_untrust : Bool

unfoldable pub on_peer_trust_signal : State → String → Bool → State × TrustSignalOutcome
on_peer_trust_signal s id true = (
  record s { they_trust_us = insert id true s.they_trust_us },
  record {
    reassert_removal = has id s.explicitly_removed;
    dismiss_pending = false;
    cascade_untrust = false;
  },
)
on_peer_trust_signal s id false = (
  record s { they_trust_us = delete id s.they_trust_us },
  record {
    reassert_removal = false;
    dismiss_pending = has id s.they_trust_us;
    cascade_untrust = has id s.they_trust_us && has id s.trusted_ids;
  },
)

-- The body of the loop of `ReconcileTrust` over Syncthing's devices: the trust, then the name.
unfoldable pub reconcile_trust_of : Map Bool → State → DeviceName → State
reconcile_trust_of introduced s d =
    if not (has d.id s.trusted_ids) && not (has d.id s.explicitly_removed)
    then record s {
      trusted_ids = insert d.id true s.trusted_ids;
      they_trust_us =
          if has d.id introduced then insert d.id true s.they_trust_us else s.they_trust_us;
    }
    else s

unfoldable pub reconcile_name_of : State → DeviceName → State
reconcile_name_of s d =
    let p = or_else zero_peer (lookup d.id s.peers) in
    if not (d.name is "") && (p.name is "")
    then record s { peers = insert d.id (record p { device_id = d.id; name = d.name }) s.peers }
    else s

unfoldable pub reconcile_devices : Map Bool → String → State → List DeviceName → State
unfolding reconcile_trust_of reconcile_name_of
reconcile_devices introduced self_id s [] = s
reconcile_devices introduced self_id s (d ∷ ds) =
    reconcile_devices introduced self_id
      (if d.id is self_id then s else reconcile_name_of (reconcile_trust_of introduced s d) d) ds

-- `stSet[id]`.
unfoldable pub is_listed : String → List DeviceName → String → Bool
is_listed self_id devices id = any (λ d. not (d.id is self_id) && (d.id is id)) devices

unfoldable pub removed_of : String → List DeviceName → Map Bool → List String
removed_of self_id devices [] = []
removed_of self_id devices ((id, v) ∷ m) =
    if is_listed self_id devices id
    then id ∷ removed_of self_id devices m
    else removed_of self_id devices m

unfoldable pub reconcile_trust : State → List DeviceName → Map Bool → String → State × List String
unfolding reconcile_devices removed_of
reconcile_trust s devices introduced self_id =
    let s' = reconcile_devices introduced self_id s devices in
    (s', removed_of self_id devices s'.explicitly_removed)
