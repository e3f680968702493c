-- ===== src/Api/FolderView.antt =====
-- `listFolders` of internal/api/handlers.go: what the snapshot shows of the folders. A failed list of
-- the connected devices is an empty one, as there.
pub mod Refreshed
pub mod Honest
mod Tests
use we_sync.Base.{
  Bool, true, false, not, ◌||◌, List, [], ◌∷◌, map, Option, none, some, String, Map, lookup, insert,
  has, or_else, if◌then◌else◌, ◌is◌, ◌==◌, ℕ, ℤ, pos,
}
use we_sync.Node.State.{State, FolderPeerInfo, wire_accepted, folder_accepted}
use we_sync.Node.Relation.{
  FolderRelationState, FolderRelationDimensions, derive_folder_relation_state, is_accepted,
}
use we_sync.Syncthing.{Folder}
use we_sync.Api.App.{device_ids_of}

pub record PeerDetail : Type 0 where
  pub need_bytes : ℤ
  pub need_items : ℤ
  pub completion : ℕ

-- A folder with what is shown of its devices.
pub record Shown : Type 0 where
  pub id : String
  pub label : String
  pub path : String
  pub type : String
  pub device_ids : List String
  pub device_accepted : Map Bool
  pub device_trusted : Map Bool
  pub device_state : Map FolderRelationState
  pub device_peer : Map PeerDetail

abbrev no_info : FolderPeerInfo
no_info = record {
  need = false;
  need_bytes = pos 0;
  need_items = pos 0;
  completion = 0;
  remote_state = "";
  stalled = false;
}

-- `FolderPeerInfoFor`.
unfoldable pub folder_peer_info_for : State → String → Map FolderPeerInfo
folder_peer_info_for s folder_id = or_else [] (lookup folder_id s.folder_peer)

-- The entry of one device, with the zero value for a missing one.
unfoldable pub info_for : State → String → String → FolderPeerInfo
unfolding folder_peer_info_for
info_for s f d = or_else no_info (lookup d (folder_peer_info_for s f))

-- What the state of one device depends on. The dimensions that the literal leaves out have their zero
-- values.
unfoldable pub dimensions_for : State → Map Bool → String → String → FolderRelationDimensions
unfolding info_for
dimensions_for s connected f d =
    let pi = info_for s f d in
    record {
      in_device_list = true;
      in_remote_sequence = has d (folder_accepted s f);
      wire_accepted = has d (wire_accepted s f);
      bep_live = has d connected;
      folder_state = "";
      folder_paused_locally = false;
      remote_state_paused = pi.remote_state is "paused";
      peer_need = pi.need;
      peer_stalled = pi.stalled;
    }

unfoldable pub state_for : State → Map Bool → String → String → FolderRelationState
unfolding derive_folder_relation_state dimensions_for
state_for s connected f d = derive_folder_relation_state (dimensions_for s connected f d)

-- The body of the loop over the devices of a folder.
unfoldable pub show_device : State → Map Bool → Shown → String → Shown
unfolding state_for
show_device s connected v d =
    let pi = info_for s v.id d in
    let state = state_for s connected v.id d in
    let detail : PeerDetail = record {
      need_bytes = pi.need_bytes;
      need_items = pi.need_items;
      completion = pi.completion;
    } in
    record v {
      device_accepted = insert d (is_accepted state) v.device_accepted;
      device_state = insert d state v.device_state;
      device_trusted = insert d (has d s.trusted_ids) v.device_trusted;
      device_peer =
          if pi.need || not (pi.completion == 0)
          then insert d detail v.device_peer
          else v.device_peer;
    }

unfoldable pub show_devices : State → Map Bool → Shown → List String → Shown
unfolding show_device
show_devices s connected v [] = v
show_devices s connected v (d ∷ ds) = show_devices s connected (show_device s connected v d) ds

-- A folder before the loop over its devices.
unfoldable pub bare : String → Folder → Shown
bare self_id f = record {
  id = f.id;
  label = f.label;
  path = f.path;
  type = f.type;
  device_ids = device_ids_of self_id f.devices;
  device_accepted = [];
  device_trusted = [];
  device_state = [];
  device_peer = [];
}

unfoldable pub show_folder : String → State → Map Bool → Folder → Shown
unfolding show_devices bare
show_folder self_id s connected f =
    show_devices s connected (bare self_id f) (device_ids_of self_id f.devices)

-- `listFolders`, with the folders and the connected devices as Syncthing lists them.
unfoldable pub list_folders : String → State → Option (Map Bool) → Option (List Folder) → List Shown
unfolding show_folder
list_folders self_id s connected none = []
list_folders self_id s connected (some fs) = map (show_folder self_id s (or_else [] connected)) fs
