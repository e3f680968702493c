-- ===== src/Syncthing/Folders.antt =====
-- internal/syncthing/folders.go and devices.go: the questions that walk over folders and devices.
use we_sync.Base.{
  ℕ, Bool, true, false, not, ◌||◌, List, [], ◌∷◌, ◌++◌, Option, none, some, String, Map, lookup,
  has, if◌then◌else◌, ◌is◌, is_pos, or_else, delete,
}
use we_sync.Syncthing.{Folder, FolderDevice}
use we_sync.Api.Completion.{Completion}

-- What Syncthing answers: `ListFolders`, the state of a folder, `ConnectedDeviceIDs`, the own ID of
-- `SystemStatus`, and `DeviceCompletion`.
pub record Answers : Type 0 where
  pub folders : Option (List Folder)
  pub state_of : String → Option String
  pub connected : Option (Map Bool)
  pub my_id : Option String
  pub completion : String → String → Option Completion

-- A result with its error.
pub record Answer : Type 0 where
  pub value : Bool
  pub failed : Bool

unfoldable pub is_busy : String → Bool
is_busy state = (state is "syncing") || (state is "scanning")

unfoldable pub busy_folders : Answers → List Folder → Answer
unfolding is_busy
busy_folders a [] = record { value = false; failed = false }
busy_folders a (f ∷ fs) =
    let rest = busy_folders a fs in
    if f.paused then rest else elim (a.state_of f.id) [
      | none ↦ record { value = true; failed = true }
      | some st ↦ if is_busy st then record { value = true; failed = false } else rest
    ]

unfoldable pub is_any_folder_busy : Answers → Answer
unfolding busy_folders
is_any_folder_busy a = elim a.folders [
  | none ↦ record { value = false; failed = true }
  | some fs ↦ busy_folders a fs
]

unfoldable pub self_id_of : Answers → String
self_id_of a = or_else "" a.my_id

-- The device is skipped.
unfoldable pub is_skipped : Answers → Option (Map Bool) → String → Bool
unfolding self_id_of
is_skipped a conns d =
    (d is "") || (d is self_id_of a) || (elim conns [ none ↦ false | some m ↦ not (has d m) ])

-- The loop over the devices of a folder, none if it runs to its end.
unfoldable pub behind_devices :
    Answers → Option (Map Bool) → String → List FolderDevice → Option Answer
unfolding is_skipped
behind_devices a conns f [] = none
behind_devices a conns f (d ∷ ds) =
    let rest = behind_devices a conns f ds in
    if is_skipped a conns d.device_id then rest else elim (a.completion f d.device_id) [
      | none ↦ some (record { value = true; failed = true })
      | some p ↦
          if is_pos p.need_items || is_pos p.need_deletes
          then some (record { value = true; failed = false })
          else rest
    ]

unfoldable pub behind_folders : Answers → Option (Map Bool) → List Folder → Answer
unfolding behind_devices
behind_folders a conns [] = record { value = false; failed = false }
behind_folders a conns (f ∷ fs) =
    let rest = behind_folders a conns fs in
    if f.paused
    then rest
    else elim (behind_devices a conns f.id f.devices) [ none ↦ rest | some r ↦ r ]

-- `conns` stays nil, here none, unless only connected devices count.
unfoldable pub any_peer_behind : Bool → Answers → Answer
unfolding behind_folders
any_peer_behind connected_only a = elim a.folders [
  | none ↦ record { value = true; failed = true }
  | some fs ↦
      if connected_only
      then elim a.connected [
        | none ↦ record { value = true; failed = true }
        | some m ↦ behind_folders a (some m) fs
      ]
      else behind_folders a none fs
]

-- `PendingFolders`: the offers of each folder, in the order in which Go ranges over the maps.
pub record PendingFolder : Type 0 where
  pub folder_id : String
  pub label : String
  pub device_id : String

abbrev pub offered_by : String → Map String → List PendingFolder
offered_by folder [] = []
offered_by folder ((device, label) ∷ ds) =
    record { folder_id = folder; label = label; device_id = device } ∷ offered_by folder ds

unfoldable pub pending_folders : Option (Map (Map String)) → Option (List PendingFolder)
pending_folders none = none
pending_folders (some raw) = some (all raw)
  where
    all : Map (Map String) → List PendingFolder
    all [] = []
    all ((folder, ds) ∷ fs) = offered_by folder ds ++ all fs

-- `GetConnectedAddresses`, with `net.SplitHostPort` as an argument.
unfoldable pub connected_addresses : (String → Option String) → Map (Bool × String) → Map String
connected_addresses host_of [] = []
connected_addresses host_of ((id, (connected, address)) ∷ cs) =
    let rest = connected_addresses host_of cs in
    if not connected || (address is "")
    then rest
    else elim (host_of address) [ none ↦ rest | some host ↦ (id, host) ∷ rest ]

-- `takeScanProgress`, on the cache of the scans' percentages.
unfoldable pub take_scan_progress : Map ℕ → String → Bool → Map ℕ × ℕ
take_scan_progress cache folder scanning =
    if not scanning then (delete folder cache, 0) else (cache, or_else 0 (lookup folder cache))
