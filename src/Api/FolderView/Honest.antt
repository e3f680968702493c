-- ===== src/Api/FolderView/Honest.antt =====
-- What the snapshot shows of a folder after a refresh of the completion.
use we_sync.Base.{◌≡◌, true, false, not, ◌&&◌, ◌||◌, List, some, String, Map, IsUnique, lookup, has}
use we_sync.Node.State.{State, wire_accepted}
use we_sync.Node.Relation.{FolderRelationState, claims_caught_up, claims_pending, is_accepted}
use we_sync.Api.App.{has_id}
use we_sync.Api.Completion.{Answers, Tracker, has_accepted, refresh_folder_completion}
use we_sync.Api.FolderView.Refreshed.{answered_need}
use we_sync.Api.FolderView.{Shown}

-- What is shown of a device agrees with the answers of the refresh, `s` being the state before it.
abbrev pub IsAnswered : Answers → State → String → String → FolderRelationState → Type 0
IsAnswered a s f d r =
    (is_accepted r ≡ (has_accepted a f d || has d (wire_accepted s f)))
    × ((claims_caught_up r && answered_need a f d) ≡ false)
    × ((claims_pending r && not (answered_need a f d)) ≡ false)

-- What is shown of each of the folder's devices does.
abbrev pub IsHonest : Answers → State → Shown → Type 0
IsHonest a s v =
    (d : String)
    → has_id d v.device_ids ≡ true
    → (r : FolderRelationState) × (lookup d v.device_state ≡ some r) × IsAnswered a s v.id d r

module _ (t : Tracker) (self_id : String) (a : Answers) (rows : Map (List String))
    (idle : t.refreshing ≡ false) (listed : a.folders ≡ some rows) (u : IsUnique rows) where
  abbrev settled : State
  settled = (refresh_folder_completion t self_id a).state
