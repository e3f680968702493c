-- ===== src/Syncthing/Behind.antt =====
-- internal/syncthing/folders.go: what the walks over the folders answer.
use we_sync.Base.{
  Bool, true, false, not, ◌&&◌, ◌||◌, List, [], ◌∷◌, Option, none, some, String, Map, if◌then◌else◌,
  is_pos, or_else, has, ◌is◌, any, ◌≡◌, refl, arith, Option-cases, inl, inr, is_some,
}
use we_sync.Syncthing.{Folder, FolderDevice}
use we_sync.Syncthing.Folders.{
  Answers, Answer, is_busy, busy_folders, is_any_folder_busy, self_id_of, is_skipped,
  behind_devices, behind_folders, any_peer_behind,
}

-- A folder that has to be taken as busy: in progress, or of an unknown state.
abbrev pub may_be_busy : Answers → Folder → Bool
may_be_busy a f = not f.paused && (elim (a.state_of f.id) [ none ↦ true | some st ↦ is_busy st ])

busy_folders-any :
    (a : Answers) (fs : List Folder) → (busy_folders a fs).value ≡ any (may_be_busy a) fs
unfolding busy_folders
busy_folders-any a [] = refl
busy_folders-any a (f ∷ fs) = ground (arith, busy_folders-any a fs)

-- `IsAnyFolderBusy` answers true exactly if Syncthing lists its folders and one that is not paused is
-- syncing or scanning, or its state cannot be read.
pub is_any_folder_busy-any :
    (a : Answers) → (is_any_folder_busy a).value ≡ any (may_be_busy a) (or_else [] a.folders)
unfolding is_any_folder_busy
is_any_folder_busy-any a = elim (Option-cases a.folders) [
  | inl e ↦ rw (e, is_any_folder_busy) refl
  | inr (fs, e) ↦ rw (e, is_any_folder_busy) (busy_folders-any a fs)
]

-- What a device still needs of a folder, or an answer that is missing.
abbrev pub may_lag : Answers → String → String → Bool
may_lag a f d = elim (a.completion f d) [
  | none ↦ true
  | some p ↦ is_pos p.need_items || is_pos p.need_deletes
]

-- Syncthing tells its own ID, and it is the device's.
abbrev pub is_own : Answers → String → Bool
is_own a d = elim a.my_id [ none ↦ false | some m ↦ d is m ]

-- The device counts, where `peers` are the connected ones, or none if all count.
abbrev pub counts : Answers → Option (Map Bool) → String → Bool
counts a peers d = not (d is "" || is_own a d) && (elim peers [ none ↦ true | some m ↦ has d m ])

abbrev pub folder_lags : Answers → Option (Map Bool) → Folder → Bool
folder_lags a peers f =
    not f.paused && any (λ d. counts a peers d.device_id && may_lag a f.id d.device_id) f.devices

skipped-counts :
    (a : Answers) (peers : Option (Map Bool)) (d : String)
    → is_skipped a peers d ≡ not (counts a peers d)
unfolding is_skipped self_id_of
skipped-counts a peers d = ground arith

abbrev pub says : Option Answer → Bool
says none = false
says (some r) = r.value

behind_devices-any :
    (a : Answers) (conns : Option (Map Bool)) (f : String) (ds : List FolderDevice)
    → says (behind_devices a conns f ds)
      ≡ any (λ d. counts a conns d.device_id && may_lag a f d.device_id) ds
unfolding behind_devices
behind_devices-any a conns f [] = refl
behind_devices-any a conns f (d ∷ ds) =
    ground (arith, behind_devices-any a conns f ds, skipped-counts a conns d.device_id)

-- A loop that stops, stops with true.
behind_devices-stop :
    (a : Answers) (conns : Option (Map Bool)) (f : String) (ds : List FolderDevice)
    → is_some (behind_devices a conns f ds) ≡ says (behind_devices a conns f ds)
unfolding behind_devices
behind_devices-stop a conns f [] = refl
behind_devices-stop a conns f (d ∷ ds) = ground (arith, behind_devices-stop a conns f ds)

behind_folders-any :
    (a : Answers) (conns : Option (Map Bool)) (fs : List Folder)
    → (behind_folders a conns fs).value ≡ any (folder_lags a conns) fs
unfolding behind_folders
behind_folders-any a conns [] = refl
behind_folders-any a conns (f ∷ fs) = ground (
  arith,
  behind_folders-any a conns fs,
  behind_devices-any a conns f.id f.devices,
  behind_devices-stop a conns f.id f.devices,
)

-- `AnyPeerBehind` and `AnyConnectedPeerBehind` answer false exactly if Syncthing lists its folders (and,
-- for the second, its connections) and each device that counts, of each folder that is not paused, has
-- an answer without items or deletes to fetch. A device counts unless its ID is empty or is the one that
-- Syncthing tells as its own, and, for the second, unless it is not connected; if Syncthing does not
-- tell its own ID, this node counts too.
pub any_peer_behind-any :
    (connected_only : Bool) (a : Answers)
    → (any_peer_behind connected_only a).value ≡ (elim a.folders [
      | none ↦ true
      | some fs ↦
          if connected_only
          then elim a.connected [ none ↦ true | some m ↦ any (folder_lags a (some m)) fs ]
          else any (folder_lags a none) fs
    ])
unfolding any_peer_behind
any_peer_behind-any connected_only a = elim (Option-cases a.folders) [
  | inl e ↦ rw (e, any_peer_behind) refl
  | inr (fs, e) ↦ rw (e, any_peer_behind) (listed connected_only a.connected fs)
]
  where
    listed :
        (co : Bool) (cs : Option (Map Bool)) (fs : List Folder)
        → (if co
            then elim cs [
              | none ↦ record { value = true; failed = true }
              | some m ↦ behind_folders a (some m) fs
            ]
            else behind_folders a none fs).value
          ≡ (if co
              then elim cs [ none ↦ true | some m ↦ any (folder_lags a (some m)) fs ]
              else any (folder_lags a none) fs)
    listed true none fs = refl
    listed true (some m) fs = behind_folders-any a (some m) fs
    listed false cs fs = behind_folders-any a none fs
