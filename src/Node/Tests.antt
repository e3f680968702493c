-- ===== src/Node/Tests.antt =====
-- Two devices, and some histories of what a node knows of them.
use we_sync.Base.{
  ◌≡◌, refl, true, false, List, [], ◌∷◌, Option, none, some, String, lookup, has, ◌is◌,
  if◌then◌else◌, arith,
}
use we_sync.Node.Peer.{Peer, zero_peer, Ip, v4}
use we_sync.Node.State.{State, DeviceName, new}
use we_sync.Node.TrustSpec.{view, Call, signals, reconciles, run}
use we_sync.Node.Trust.{IsExclusive, run-view, nexts}
use we_sync.Node.Peers.{IsKeyed}
use we_sync.Node.Relation.{FolderRelationDimensions}

abbrev listed : List DeviceName
listed = record { id = "A"; name = "laptop" } ∷ record { id = "B"; name = "phone" } ∷ []

abbrev history : List Call
history = signals "A" true ∷ reconciles listed [] "B" ∷ signals "A" false ∷ []

run-view_example : view (run new history) "A" ≡ nexts "A" (view new "A") history
run-view_example = run-view new history "A"

new-IsExclusive : IsExclusive new
unfolding view new lookup has
new-IsExclusive id = refl

-- One address of the local network, and a link-local one.
abbrev parse_ip : String → Option Ip
parse_ip addr =
    if addr is "10.0.0.7"
    then some (v4 10 0 0 7)
    else if addr is "169.254.3.3"
    then some (v4 169 254 3 3)
    else none

new-IsKeyed : IsKeyed new
unfolding new lookup
new-IsKeyed id p h = ground arith

abbrev laptop : Peer
laptop = record zero_peer { addr = "10.0.0.7"; device_id = "A"; name = "laptop" }

abbrev knows_laptop : State
knows_laptop = record new { peers = ("A", laptop) ∷ [] }

abbrev sharing : FolderRelationDimensions
sharing = record {
  in_device_list = true;
  in_remote_sequence = true;
  wire_accepted = false;
  bep_live = true;
  folder_state = "idle";
  folder_paused_locally = false;
  remote_state_paused = false;
  peer_need = true;
  peer_stalled = false;
}
