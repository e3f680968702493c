-- ===== src/Syncthing.antt =====
-- internal/syncthing: the client of Syncthing's REST interface. What Syncthing answers is an
-- argument, none for an error; what is sent to it is a result.
pub mod Folders
pub mod Behind
pub mod Connect
pub mod Relay
pub mod Events
mod Tests
use we_sync.Base.{Bool, true, false, List, [], ◌∷◌, String, if◌then◌else◌, ◌is◌, ℕ, leb}

pub record FolderDevice : Type 0 where
  pub device_id : String
  pub introduced_by : String

pub record Folder : Type 0 where
  pub id : String
  pub label : String
  pub path : String
  pub type : String
  pub paused : Bool
  pub devices : List FolderDevice

pub record Device : Type 0 where
  pub device_id : String
  pub name : String
  pub addresses : List String
  pub paused : Bool
  pub introducer : Bool
  pub auto_accept_folders : Bool

-- The folder that `AddFolder` posts.
unfoldable pub add_folder : Folder → Folder
add_folder f = record f { type = if f.type is "" then "sendreceive" else f.type }

-- The device that `AddDevice` posts.
unfoldable pub add_device : String → String → String → Device
add_device id name addr = record {
  device_id = id;
  name = name;
  addresses = (if addr is "" then "dynamic" else addr) ∷ [];
  paused = false;
  introducer = false;
  auto_accept_folders = false;
}

-- The delay that `SetFolderFSWatcherDelay` sends.
unfoldable pub fs_watcher_delay : ℕ → ℕ
fs_watcher_delay seconds = if leb 1 seconds then seconds else 10
