-- ===== src/Api/Completion.antt =====
-- internal/api/folder_state.go: which devices have accepted a folder, and how much of it they still
-- need. What Syncthing answers is an argument; an answer that is none is an error.
use we_sync.Base.{
  ℕ, ◌+◌, ◌*◌, Bool, false, ◌&&◌, ◌||◌, List, [], ◌∷◌, Option, none, some, String, Map, lookup,
  insert, or_else, is_some, has, if◌then◌else◌, leb, any, ◌is◌, ℤ, is_pos, is_below,
}
use we_sync.Mobile.Decision.{second}
use we_sync.Node.State.{
  State, FolderPeerInfo, replace_folder_accepted, replace_folder_peer_info,
  replace_device_last_seen,
}

abbrev pub stall_after : ℕ
stall_after = 60 * second

-- `peerProgress`.
pub record Progress : Type 0 where
  pub need_bytes : ℤ
  pub last_progress : ℕ

-- The answer of `DeviceCompletion`.
pub record Completion : Type 0 where
  pub completion : ℕ
  pub need_bytes : ℤ
  pub need_items : ℤ
  pub need_deletes : ℤ
  pub remote_state : String

unfoldable pub needs : Completion → Bool
needs c = is_pos c.need_items || is_pos c.need_deletes || is_pos c.need_bytes

-- The time of the last progress, carried forward unless the bytes fell.
unfoldable pub last_progress_of : ℕ → Option Progress → Completion → ℕ
last_progress_of now none c = now
last_progress_of now (some p) c =
    if is_below c.need_bytes p.need_bytes then now else p.last_progress

-- One device of one folder: its progress, and what is shown of it.
unfoldable pub refresh_device : ℕ → Bool → Option Progress → Completion → Progress × FolderPeerInfo
unfolding needs last_progress_of
refresh_device now connected prev c =
    let last = last_progress_of now prev c in
    (
      record { need_bytes = c.need_bytes; last_progress = last },
      record {
        need = needs c;
        need_bytes = c.need_bytes;
        need_items = c.need_items;
        completion = c.completion;
        remote_state = c.remote_state;
        stalled = needs c && is_pos c.need_bytes && connected && leb (last + stall_after) now;
      },
    )

-- What one refresh sees: the clock, the folders with their devices, who is connected, the remote
-- sequences of a folder, the completion of a device, and when devices were last seen.
pub record Answers : Type 0 where
  pub now : ℕ
  pub folders : Option (List (String × List String))
  pub connected : Map Bool
  pub status : String → Option (Map ℕ)
  pub completion_of : String → String → Option Completion
  pub last_seen : Option (Map ℕ)

-- What is gathered of one folder: who has accepted it, what is shown, and the progress.
pub record Gathered : Type 0 where
  pub accepted : Map Bool
  pub info : Map FolderPeerInfo
  pub progress : Map Progress

abbrev pub empty : Gathered
empty = record { accepted = []; info = []; progress = [] }

unfoldable pub has_accepted : Answers → String → String → Bool
has_accepted a f d = elim (a.status f) [ none ↦ false | some seq ↦ is_some (lookup d seq) ]

-- One turn of the loop over the devices of a folder.
unfoldable pub gather_device : Answers → Map (Map Progress) → String → Gathered → String → Gathered
unfolding refresh_device has_accepted
gather_device a prev f g d =
    let g' = record g { accepted = insert d (has_accepted a f d) g.accepted } in
    elim (a.completion_of f d) [
      | none ↦ g'
      | some c ↦
          let step =
            refresh_device a.now (has d a.connected) (lookup d (or_else [] (lookup f prev))) c in
          record g' { info = insert d step.1 g.info; progress = insert d step.0 g.progress }
    ]

unfoldable pub gather :
    Answers → Map (Map Progress) → String → String → Gathered → List String → Gathered
unfolding gather_device
gather a prev self_id f g [] = g
gather a prev self_id f g (d ∷ ds) =
    gather a prev self_id f (if d is self_id then g else gather_device a prev f g d) ds

-- The three maps of a refresh, folder by folder.
pub record Maps : Type 0 where
  pub accepted : Map (Map Bool)
  pub peer_info : Map (Map FolderPeerInfo)
  pub next_progress : Map (Map Progress)

unfoldable pub gather_folders :
    Answers → Map (Map Progress) → String → Maps → List (String × List String) → Maps
unfolding gather
gather_folders a prev self_id m [] = m
gather_folders a prev self_id m ((f, devices) ∷ fs) =
    let g = gather a prev self_id f empty devices in
    let m' : Maps = record {
      accepted = insert f g.accepted m.accepted;
      peer_info = insert f g.info m.peer_info;
      next_progress = insert f g.progress m.next_progress;
    } in
    gather_folders a prev self_id m' fs

-- What the handlers keep for it.
pub record Tracker : Type 0 where
  pub refreshing : Bool
  pub progress : Map (Map Progress)
  pub state : State

-- `RefreshFolderCompletion`.
unfoldable pub refresh_folder_completion : Tracker → String → Answers → Tracker
unfolding gather_folders replace_folder_accepted replace_folder_peer_info replace_device_last_seen
refresh_folder_completion t self_id a = if t.refreshing then t else (elim a.folders [
  | none ↦ t
  | some fs ↦
      let m =
        gather_folders a t.progress self_id
          (record { accepted = []; peer_info = []; next_progress = [] }) fs in
      let s = replace_folder_peer_info (replace_folder_accepted t.state m.accepted) m.peer_info in
      record t {
        progress = m.next_progress;
        state = elim a.last_seen [ none ↦ s | some ls ↦ replace_device_last_seen s ls ];
      }
])

-- `RefreshPendingFolders`: the offers that are kept. `existing` is none if the folders cannot be
-- listed, and an offer is a folder and the device that offers it.
unfoldable pub pending_of :
    List (String × String) → Option (List (String × List String)) → List (String × String)
pending_of pending none = pending
pending_of [] (some folders) = []
pending_of ((f, d) ∷ pending) (some folders) =
    let rest = pending_of pending (some folders) in
    if participates d (devices_of f folders) then rest else (f, d) ∷ rest
  where
    -- A later folder with the ID takes the place of an earlier one.
    devices_of : String → List (String × List String) → List String
    devices_of f [] = []
    devices_of f ((g, ds) ∷ gs) =
        let later = devices_of f gs in
        if any (λ x. x.0 is f) gs then later else if g is f then ds else later

    participates : String → List String → Bool
    participates d ds = any (λ x. x is d) ds
