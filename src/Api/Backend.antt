-- ===== src/Api/Backend.antt =====
-- internal/syncthing/interface.go: Syncthing as the handlers use it. Its configuration is a state
-- that the calls change; a call answers whether there was no error, and a list is none for one.
use we_sync.Base.{Bool, true, List, map, Option, some, String, if◌then◌else◌, ◌is◌, ◌≡◌}
use we_sync.Syncthing.{Folder, Device}

pub record Backend : Type 1 where
  pub St : Type 0
  pub list_folders : St → Option (List Folder)
  pub list_devices : St → Option (List Device)
  pub update_folder : Folder → St → St × Bool
  pub add_folder : Folder → St → St × Bool
  pub remove_folder : String → St → St × Bool
  pub add_device : String → String → St → St × Bool
  pub update_device_introducer : String → Bool → St → St × Bool
  pub remove_device : String → St → St × Bool
  pub dismiss_pending_device : String → St → St × Bool
  pub dismiss_pending_folder : String → String → St → St × Bool
  pub reconnect : String → St → St × Bool  -- `PauseDevice` and `ResumeDevice`

abbrev pub replaced : Folder → Folder → Folder
replaced f g = if g.id is f.id then f else g

abbrev pub flagged : String → Bool → Device → Device
flagged id v d = if d.device_id is id then record d { introducer = v } else d

-- What Syncthing documents of the calls that the handlers rely on: without an error, the folder with
-- the ID is replaced, the flag of the device is set, and the other list stays.
pub record IsDocumented (b : Backend) : Type 0 where
  pub folder_updated :
      (f : Folder) (s : b.St) (fs : List Folder)
      → b.list_folders s ≡ some fs
      → (b.update_folder f s).1 ≡ true
      → b.list_folders (b.update_folder f s).0 ≡ some (map (replaced f) fs)
  pub devices_kept :
      (f : Folder) (s : b.St) → b.list_devices (b.update_folder f s).0 ≡ b.list_devices s
  pub introducer_updated :
      (id : String) (v : Bool) (s : b.St) (ds : List Device)
      → b.list_devices s ≡ some ds
      → (b.update_device_introducer id v s).1 ≡ true
      → b.list_devices (b.update_device_introducer id v s).0 ≡ some (map (flagged id v) ds)

-- The calls that change a folder or a flag meet no error.
pub record IsUp (b : Backend) : Type 0 where
  pub folder_up : (f : Folder) (s : b.St) → (b.update_folder f s).1 ≡ true
  pub flag_up : (id : String) (v : Bool) (s : b.St) → (b.update_device_introducer id v s).1 ≡ true
