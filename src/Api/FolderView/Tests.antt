-- ===== src/Api/FolderView/Tests.antt =====
-- A folder of this node "S" and two peers, of which "X" needs data, and Syncthing does not answer for
-- "Y".
use we_sync.Base.{
  ◌≡◌, refl, Bool, true, false, List, [], ◌∷◌, ◌++◌, map, Option, none, some, String, Map, lookup,
  insert, has, pos, ◌is◌, if◌then◌else◌,
}
use we_sync.Node.State.{new, folder_accepted}
use we_sync.Node.Relation.{accepted_idle, accepted_sending}
use we_sync.Syncthing.{Folder, FolderDevice}
use we_sync.Api.Completion.{Answers, Completion, Tracker, refresh_folder_completion}
use we_sync.Api.FolderView.{Shown, bare, list_folders}

abbrev member : String → FolderDevice
member id = record { device_id = id; introduced_by = "" }

-- This node has paused the folder.
abbrev photos : Folder
photos = record {
  id = "photos";
  label = "Photos";
  path = "/photos";
  type = "sendreceive";
  paused = true;
  devices = member "S" ∷ member "X" ∷ member "Y" ∷ [];
}

abbrev pending : Completion
pending = record {
  completion = 40;
  need_bytes = pos 600;
  need_items = pos 2;
  need_deletes = pos 0;
  remote_state = "valid";
}

abbrev replies : Answers
replies = record {
  now = 90;
  folders = some (("photos", "S" ∷ "X" ∷ "Y" ∷ []) ∷ []);
  connected = ("X", true) ∷ ("Y", true) ∷ [];
  status = λ f. some (("X", 3) ∷ ("Y", 1) ∷ []);
  completion_of = λ f d. if d is "X" then some pending else none;
  last_seen = none;
}

abbrev started : Tracker
started = record { refreshing = false; progress = []; state = new }

abbrev both : Option (Map Bool)
both = some (("X", true) ∷ ("Y", true) ∷ [])

abbrev views : List Shown
views =
    list_folders "S" (refresh_folder_completion started "S" replies).state both (some (photos ∷ []))

-- "X" is shown as being sent data; "Y", of which nothing is known, as having it all; and that the
-- folder is paused here makes no difference.
views_end :
    map (λ v. lookup "X" v.device_state) views ++ map (λ v. lookup "Y" v.device_state) views
    ≡ some accepted_sending ∷ some accepted_idle ∷ []
unfolding list_folders refresh_folder_completion new bare lookup ◌is◌ insert has folder_accepted
views_end = refl
