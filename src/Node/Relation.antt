-- ===== src/Node/Relation.antt =====
-- internal/node/derive.go: a folder's relation to one peer.
use we_sync.Base.{◌≡◌, Bool, true, false, not, ◌&&◌, ◌||◌, String, if◌then◌else◌, ◌is◌, arith}

pub data FolderRelationState : Type 0 where
  not_member invited accepted_paused_local accepted_paused_remote : FolderRelationState
  accepted_syncing accepted_sending accepted_stalled : FolderRelationState
  accepted_idle accepted_behind_offline accepted_offline : FolderRelationState

pub record FolderRelationDimensions : Type 0 where
  pub in_device_list : Bool
  pub in_remote_sequence : Bool
  pub wire_accepted : Bool
  pub bep_live : Bool
  pub folder_state : String
  pub folder_paused_locally : Bool
  pub remote_state_paused : Bool
  pub peer_need : Bool
  pub peer_stalled : Bool

unfoldable pub derive_folder_relation_state : FolderRelationDimensions → FolderRelationState
derive_folder_relation_state d =
    if not d.in_device_list
    then not_member
    else if not (d.in_remote_sequence || d.wire_accepted)
    then invited
    else if d.folder_paused_locally
    then accepted_paused_local
    else if d.remote_state_paused
    then accepted_paused_remote
    else if not d.bep_live
    then (if d.peer_need then accepted_behind_offline else accepted_offline)
    else if (d.folder_state is "syncing") || (d.folder_state is "scanning")
    then accepted_syncing
    else if d.peer_need
    then (if d.peer_stalled then accepted_stalled else accepted_sending)
    else accepted_idle

unfoldable pub is_accepted : FolderRelationState → Bool
is_accepted not_member = false
is_accepted invited = false
is_accepted _ = true

-- Whether this node claims that the peer lacks nothing of the folder.
abbrev pub claims_caught_up : FolderRelationState → Bool
claims_caught_up accepted_idle = true
claims_caught_up accepted_offline = true
claims_caught_up _ = false

-- Whether this node claims that data is to reach the peer.
abbrev pub claims_pending : FolderRelationState → Bool
claims_pending accepted_sending = true
claims_pending accepted_stalled = true
claims_pending accepted_behind_offline = true
claims_pending _ = false

-- A peer counts as having accepted a folder exactly if it is on the folder's list, and Syncthing's
-- sequence or the wire says so: the pauses, the connection and the transfer make no difference.
pub derive-IsAccepted :
    (d : FolderRelationDimensions)
    → is_accepted (derive_folder_relation_state d)
      ≡ (d.in_device_list && (d.in_remote_sequence || d.wire_accepted))
unfolding derive_folder_relation_state is_accepted
derive-IsAccepted d = ground arith

-- No state that claims the peer is caught up is shown while the peer needs data, and no state that
-- claims data is pending while it needs none.
pub derive_honest :
    (d : FolderRelationDimensions)
    → ((claims_caught_up (derive_folder_relation_state d) && d.peer_need) ≡ false)
      × ((claims_pending (derive_folder_relation_state d) && not d.peer_need) ≡ false)
unfolding derive_folder_relation_state
derive_honest d = (ground arith, ground arith)
