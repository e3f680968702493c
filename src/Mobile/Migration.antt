-- ===== src/Mobile/Migration.antt =====
-- `forceUnpauseAllFoldersOnce` of mobile/gate_settings.go: the migration that clears what the old gate
-- left paused. What Syncthing answers in an attempt is an argument; the list of the attempts
-- ends where the process does.
pub mod First
mod Tests
use we_sync.Base.{
  ℕ, zero, suc, Bool, true, false, not, ◌&&◌, ◌||◌, List, [], ◌∷◌, ◌++◌, Option, none, some, String,
  if◌then◌else◌, is_empty,
}
use we_sync.Syncthing.{Folder}

abbrev pub max_attempts : ℕ
max_attempts = 20

-- One attempt: the folders, none if the client or the list fails, and whether a folder's pause can be
-- cleared.
pub record Attempt : Type 0 where
  pub folders : Option (List Folder)
  pub clears : String → Bool

-- The walk over the folders: the calls, `anyUnpaused` and `anyFailed`.
pub record Walk : Type 0 where
  pub calls : List String
  pub any_unpaused : Bool
  pub any_failed : Bool

unfoldable pub unpause_each : (String → Bool) → List Folder → Walk
unpause_each clears [] = record { calls = []; any_unpaused = false; any_failed = false }
unpause_each clears (f ∷ fs) =
    let rest = unpause_each clears fs in
    if not f.paused
    then rest
    else if not (clears f.id)
    then record rest { calls = f.id ∷ rest.calls; any_failed = true }
    else record rest { calls = f.id ∷ rest.calls; any_unpaused = true }

-- The calls of the migration, whether it logs that it has unpaused folders, and whether it asks for
-- the mark.
pub record Outcome : Type 0 where
  pub calls : List String
  pub logged : Bool
  pub marks : Bool

abbrev pub nothing : Outcome
nothing = record { calls = []; logged = false; marks = false }

-- The loop, with `n` attempts left.
unfoldable pub attempt : ℕ → List Attempt → Outcome
unfolding unpause_each
attempt zero tries = nothing
attempt (suc n) [] = nothing
attempt (suc n) (a ∷ tries) =
    let rest = attempt n tries in
    elim a.folders [
      | none ↦ rest
      | some fs ↦
          let w = unpause_each a.clears fs in
          if w.any_failed
          then record rest { calls = w.calls ++ rest.calls }
          else record { calls = w.calls; logged = w.any_unpaused; marks = true }
    ]

-- `done` is what the store answers, none without a store.
unfoldable pub force_unpause_all_folders_once : Option Bool → List Attempt → Outcome
unfolding attempt
force_unpause_all_folders_once none tries = nothing
force_unpause_all_folders_once (some true) tries = nothing
force_unpause_all_folders_once (some false) tries = attempt max_attempts tries
