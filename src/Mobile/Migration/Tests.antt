-- ===== src/Mobile/Migration/Tests.antt =====
-- A Syncthing that clears one of two folders in its second answer, and the other in its third.
use we_sync.Base.{◌≡◌, refl, Bool, true, false, List, [], ◌∷◌, none, some, String, take, any, ◌is◌}
use we_sync.Syncthing.{Folder}
use we_sync.Mobile.Migration.{
  max_attempts, Attempt, nothing, force_unpause_all_folders_once, attempt, unpause_each,
}
use we_sync.Mobile.Migration.First.{is_clean, asked_until, first_asks, force_unpause-first}

abbrev folder : String → Bool → Folder
folder id paused = record {
  id = id;
  label = "";
  path = "";
  type = "";
  paused = paused;
  devices = [];
}

abbrev tries : List Attempt
tries =
    record { folders = none; clears = λ id. true }
    ∷ record { folders = some (folder "a" true ∷ folder "b" true ∷ []); clears = λ id. id is "a" }
    ∷ record { folders = some (folder "a" false ∷ folder "b" true ∷ []); clears = λ id. true }
    ∷ []

force_unpause-first_example :
    let o = force_unpause_all_folders_once (some false) tries in
    let seen = take max_attempts tries in
    (o.marks ≡ any is_clean seen)
    × (o.calls ≡ asked_until seen)
    × (o.logged ≡ first_asks seen)
    × (force_unpause_all_folders_once (some true) tries ≡ nothing)
    × (force_unpause_all_folders_once none tries ≡ nothing)
force_unpause-first_example = force_unpause-first tries

-- If the last folder is found cleared, the log says nothing of those that were.
abbrev found_cleared : List Attempt
found_cleared =
    record { folders = some (folder "a" true ∷ folder "b" true ∷ []); clears = λ id. id is "a" }
    ∷ record { folders = some (folder "a" false ∷ folder "b" false ∷ []); clears = λ id. true }
    ∷ []

unlogged :
    force_unpause_all_folders_once (some false) found_cleared
    ≡ record { calls = "a" ∷ "b" ∷ []; logged = false; marks = true }
unfolding force_unpause_all_folders_once attempt unpause_each ◌is◌
unlogged = refl
