-- ===== src/Api/App.antt =====
-- internal/api: what the handlers change, and their helpers (handlers.go, folder_state.go, utils.go).
-- A call of `notify`, `SendSync` or `SendHelloTo` adds to the messages: `notify` sends on a goroutine of its
-- own, so their order in the list is not that on the wire. `RefreshPendingFolders`, which reads a cache
-- anew, leaves the model as it is.
use we_sync.Base.{
  Bool, true, false, ◌&&◌, List, [], ◌∷◌, ◌++◌, map, Option, none, some, String, if◌then◌else◌,
  ◌is◌, any, or_else,
}
use we_sync.Node.State.{State, trust, untrust, reset_accepted, set_peer_name_if_empty, new}
use we_sync.Syncthing.{Folder, FolderDevice, Device}
use we_sync.Api.Backend.{Backend}

-- The messages that the handlers send, by their type.
pub data Notice : Type 0 where
  not_trusted : Notice  -- `Hello` with `Trusted` false
  greeting : Notice  -- `SendHelloTo`
  cancelled : Notice
  folder_accept : (folder : String) → Notice
  folder_decline : (folder : String) → Notice
  folder_remove : (folder target : String) → Notice

pub record App (b : Backend) : Type 0 where
  pub state : State
  pub st : b.St
  pub sent : List (String × Notice)  -- the messages to send, in no order
  pub greets_all : Bool  -- `BroadcastHello` was called, which greets every peer on the wire
  pub push_queued : Bool
  pub pipeline_queued : Bool
  pub folders_changed : Bool  -- `foldersChanged` was called

-- A folder as `listFolders` gives it: its devices without this node.
pub record FolderWithDevices : Type 0 where
  pub id : String
  pub device_ids : List String

abbrev pub device_ids_of : String → List FolderDevice → List String
device_ids_of self_id [] = []
device_ids_of self_id (d ∷ ds) =
    let rest = device_ids_of self_id ds in
    if d.device_id is self_id then rest else d.device_id ∷ rest

abbrev pub folder_with_devices : String → Folder → FolderWithDevices
folder_with_devices self_id f = record { id = f.id; device_ids = device_ids_of self_id f.devices }

abbrev pub has_id : String → List String → Bool
has_id id ids = any (λ d. d is id) ids

-- `folderByID` and `folderParticipants`.
unfoldable pub folder_participants : List FolderWithDevices → String → List String
folder_participants [] id = []
folder_participants (f ∷ fs) id =
    let rest = folder_participants fs id in if f.id is id then f.device_ids else rest

abbrev pub lists_device : String → List FolderDevice → Bool
lists_device id ds = any (λ d. d.device_id is id) ds

-- `kept` in `removeDeviceFromFolderInST`.
abbrev pub without : String → List FolderDevice → List FolderDevice
without id [] = []
without id (d ∷ ds) = let rest = without id ds in if d.device_id is id then rest else d ∷ rest

-- The first folder with an ID.
abbrev pub find_folder : String → List Folder → Option Folder
find_folder id [] = none
find_folder id (f ∷ fs) = let rest = find_folder id fs in if f.id is id then some f else rest

abbrev pub new_member : String → FolderDevice
new_member id = record { device_id = id; introduced_by = "" }

module _ (b : Backend) where
  unfoldable pub schedule_push : App b → App b
  schedule_push a = record a { push_queued = true }

  unfoldable pub schedule_pipeline : App b → App b
  schedule_pipeline a = record a { pipeline_queued = true }

  unfoldable pub notify : String → Notice → App b → App b
  notify id n a = record a { sent = a.sent ++ ((id, n) ∷ []) }

  -- A loop that sends one message to each.
  unfoldable pub notify_each : List String → Notice → App b → App b
  unfolding notify
  notify_each [] n a = a
  notify_each (id ∷ ids) n a = notify_each ids n (notify id n a)

  unfoldable pub list_folders : String → App b → List FolderWithDevices
  list_folders self_id a = elim (b.list_folders a.st) [
    | none ↦ []
    | some fs ↦ map (folder_with_devices self_id) fs
  ]

  unfoldable pub is_folder_participant : String → App b → String → String → Bool
  unfolding list_folders
  is_folder_participant self_id a device folder =
      any (λ f. (f.id is folder) && has_id device f.device_ids) (list_folders self_id a)

  unfoldable pub add_device_to_folder : String → String → App b → App b
  add_device_to_folder folder device a = elim (b.list_folders a.st) [
    | none ↦ a
    | some fs ↦ elim (find_folder folder fs) [
      | none ↦ a
      | some f ↦
          if lists_device device f.devices
          then a
          else let r =
              b.update_folder (record f { devices = f.devices ++ (new_member device ∷ []) }) a.st in
            if r.1
            then record a { st = r.0; state = reset_accepted a.state folder device }
            else record a { st = r.0 }
    ]
  ]

  unfoldable pub remove_device_from_folder : String → String → App b → App b
  remove_device_from_folder folder device a = elim (b.list_folders a.st) [
    | none ↦ a
    | some fs ↦ elim (find_folder folder fs) [
      | none ↦ a
      | some f ↦ record a {
        st = (b.update_folder (record f { devices = without device f.devices }) a.st).0;
      }
    ]
  ]

  -- The loop of `removeDeviceFromAllFolders` over the folders as they were listed.
  unfoldable pub remove_device_from_each : String → List FolderWithDevices → App b → App b
  unfolding remove_device_from_folder
  remove_device_from_each device [] a = a
  remove_device_from_each device (f ∷ fs) a =
      remove_device_from_each device fs
        (if has_id device f.device_ids then remove_device_from_folder f.id device a else a)

  unfoldable pub remove_device_from_all_folders : String → String → App b → App b
  unfolding remove_device_from_each list_folders
  remove_device_from_all_folders self_id device a =
      remove_device_from_each device (list_folders self_id a) a

  -- `on` is the setting of `GetIntroducer`.
  unfoldable pub trust_device : Bool → String → String → App b → App b
  trust_device on device name a =
      let added = (b.add_device device name a.st).0 in
      record a { st = (b.update_device_introducer device on added).0; state = trust a.state device }

  unfoldable pub untrust_device : String → App b → App b
  unfolding notify
  untrust_device device a =
      notify device not_trusted
        (record a { st = (b.remove_device device a.st).0; state = untrust a.state device })

  -- `NewHandlers`: trust what Syncthing has configured, then take over the names.
  unfoldable pub trust_each : String → List Device → State → State
  trust_each self_id [] s = s
  trust_each self_id (d ∷ ds) s =
      trust_each self_id ds (if d.device_id is self_id then s else trust s d.device_id)

  unfoldable pub name_each : List Device → State → State
  name_each [] s = s
  name_each (d ∷ ds) s = name_each ds (set_peer_name_if_empty s d.device_id d.name)

  unfoldable pub new_handlers : String → String → b.St → App b
  unfolding trust_each name_each
  new_handlers self_id name st =
      let devices = or_else [] (b.list_devices st) in
      record {
        state = name_each devices (trust_each self_id devices (record new { name = name }));
        st = st;
        sent = [];
        greets_all = false;
        push_queued = false;
        pipeline_queued = false;
        folders_changed = false;
      }
