-- ===== src/Api/Memory.antt =====
-- A Syncthing in memory, that meets no error, and runs of the handlers on it.
use we_sync.Base.{
  true, false, List, [], ◌∷◌, map, Option, none, some, String, if◌then◌else◌, ◌is◌, any, ◌≡◌, refl,
  ap, has, lookup,
}
use we_sync.Node.State.{State, new, is_trusted, is_explicitly_removed}
use we_sync.Syncthing.{Folder, FolderDevice, Device, add_device}
use we_sync.Api.Backend.{Backend, IsDocumented, IsUp, replaced, flagged}
use we_sync.Api.App.{App, list_folders}
use we_sync.Api.Pairing.{delete_device}
use we_sync.Api.FolderCalls.{AcceptRequest}
use we_sync.Api.Unpair.{shares}
use we_sync.Base.{pos}
use we_sync.Peerwire.Message.{Message, MsgType, hello, cancelled, folder_remove}
use we_sync.Api.NodeEvents.{Wiring}
use we_sync.Api.Strangers.Visit.{visit, visit-harmless}
use we_sync.Api.Removal.{delete_device-gone}

abbrev Tables : Type 0
Tables = List Folder × List Device

abbrev other_folders : String → List Folder → List Folder
other_folders id [] = []
other_folders id (f ∷ fs) = let rest = other_folders id fs in if f.id is id then rest else f ∷ rest

abbrev other_devices : String → List Device → List Device
other_devices id [] = []
other_devices id (d ∷ ds) =
    let rest = other_devices id ds in if d.device_id is id then rest else d ∷ rest

abbrev memory : Backend
memory = record {
  St = Tables;
  list_folders = λ s. some s.0;
  list_devices = λ s. some s.1;
  update_folder = λ f s. ((map (replaced f) s.0, s.1), true);
  add_folder = λ f s. ((f ∷ s.0, s.1), true);
  remove_folder = λ id s. ((other_folders id s.0, s.1), true);
  add_device = λ id name s. ((s.0, add_device id name "" ∷ s.1), true);
  update_device_introducer = λ id v s. ((s.0, map (flagged id v) s.1), true);
  remove_device = λ id s. ((s.0, other_devices id s.1), true);
  dismiss_pending_device = λ id s. (s, true);
  dismiss_pending_folder = λ f id s. (s, true);
  reconnect = λ id s. (s, true);
}

memory-IsDocumented : IsDocumented memory
memory-IsDocumented = record {
  folder_updated = λ f s fs e _.
      ap
        (λ o. elim o as (λ _. Option (List Folder)) [
          | none ↦ none
          | some x ↦ some (map (replaced f) x)
        ])
        e;
  devices_kept = λ f s. refl;
  introducer_updated = λ id v s ds e _.
      ap
        (λ o. elim o as (λ _. Option (List Device)) [
          | none ↦ none
          | some x ↦ some (map (flagged id v) x)
        ])
        e;
}

memory-IsUp : IsUp memory
memory-IsUp = record { folder_up = λ f s. refl; flag_up = λ id v s. refl }

abbrev member : String → FolderDevice
member id = record { device_id = id; introduced_by = "" }

-- This node is "S"; "Y" was introduced by "X".
abbrev photos : Folder
photos = record {
  id = "photos";
  label = "Photos";
  path = "/photos";
  type = "sendreceive";
  paused = false;
  devices = member "S" ∷ member "X" ∷ record { device_id = "Y"; introduced_by = "X" } ∷ [];
}

abbrev tables : Tables
tables = (photos ∷ [], add_device "S" "me" "" ∷ add_device "X" "x" "" ∷ add_device "Y" "y" "" ∷ [])

abbrev app : App memory
app = record {
  state = new;
  st = tables;
  sent = [];
  greets_all = false;
  push_queued = false;
  pipeline_queued = false;
  folders_changed = false;
}

delete_device-gone_example :
    (is_trusted (delete_device memory "S" true "X" app).0.state "X" ≡ false)
    × ((is_explicitly_removed (delete_device memory "S" true "X" app).0.state "X" ≡ true)
        × ((gs : List Folder) × ((memory.list_folders (delete_device memory "S" true "X" app).0.st
                ≡ some gs)
              × (any (shares "X") gs ≡ false))))
unfolding ◌is◌
delete_device-gone_example =
    delete_device-gone memory memory-IsDocumented memory-IsUp "S" true "X" app (photos ∷ []) refl
      refl refl

abbrev music : AcceptRequest
music = record { folder_id = "music"; device_id = "X"; path = "/music"; direction = "" }

-- "X" is known at an address, and "Y" is not.
abbrev two_trusted : State
two_trusted = record new { trusted_ids = ("X", true) ∷ ("Y", true) ∷ [] }

abbrev wiring : Wiring
wiring = record {
  self_id = "S";
  introducer = true;
  parse_ip = λ s. none;
  as_port = λ p. 47821;
  peer_addr = λ d. none;
}

-- A frame in which a peer claims to be "X", which is in the folder.
abbrev claim : MsgType → Message
claim kind = record {
  kind = kind;
  device_id = "X";
  port = pos 47821;
  name = "x";
  st_port = pos 22000;
  info = none;
  cert_fp = "";
  trusted = some true;
  folder_id = "photos";
  folder_label = "";
  folder_path = "";
  folder_type = "";
  folder_ids = [];
  target_device_id = "";
}

abbrev claims : List (Option Message)
claims = some (claim hello) ∷ none ∷ some (claim folder_remove) ∷ some (claim cancelled) ∷ []

visit-harmless_example :
    (memory.list_folders (visit memory wiring none "f" "Z" "10.0.0.3" claims app).st
      ≡ some (photos ∷ []))
    × ((visit memory wiring none "f" "Z" "10.0.0.3" claims app).state.trusted_ids ≡ [])
unfolding ◌is◌ new is_trusted list_folders has lookup
visit-harmless_example =
    visit-harmless memory wiring none "f" "Z" "10.0.0.3" claims app (λ id s. refl) refl refl refl
