-- ===== src/Syncthing/Tests.antt =====
-- A folder with a device that lags.
use we_sync.Base.{true, false, [], ◌∷◌, some, any, ◌≡◌, pos}
use we_sync.Api.Completion.{Completion}
use we_sync.Syncthing.{Folder}
use we_sync.Syncthing.Folders.{Answers, any_peer_behind}
use we_sync.Syncthing.Behind.{folder_lags, any_peer_behind-any}

abbrev lagging : Completion
lagging = record {
  completion = 40;
  need_bytes = pos 600;
  need_items = pos 2;
  need_deletes = pos 0;
  remote_state = "valid";
}

abbrev photos : Folder
photos = record {
  id = "photos";
  label = "Photos";
  path = "/photos";
  type = "sendreceive";
  paused = false;
  devices = record { device_id = "X"; introduced_by = "" } ∷ [];
}

abbrev answers : Answers
answers = record {
  folders = some (photos ∷ []);
  state_of = λ f. some "idle";
  connected = some (("X", true) ∷ []);
  my_id = some "S";
  completion = λ f d. some lagging;
}

any_peer_behind-any_example :
    (any_peer_behind true answers).value
    ≡ any (folder_lags answers (some (("X", true) ∷ []))) (photos ∷ [])
any_peer_behind-any_example = any_peer_behind-any true answers
