-- ===== src/Startup/Leftover.antt =====
-- Whether Syncthing is stopped when the service ends.
use we_sync.Base.{Bool, true, false, not, ◌&&◌, List, [], ◌∷◌, ◌≡◌, arith, any}
use we_sync.Startup.{
  Act, releases_lock, starts_syncthing, stops_syncthing, Steps, serve_files, with_syncthing, run,
}

-- Syncthing is started without an error; and it is stopped.
abbrev pub is_start : Act → Bool
is_start (starts_syncthing ok) = ok
is_start _ = false

abbrev pub is_stop : Act → Bool
is_stop stops_syncthing = true
is_stop _ = false

abbrev pub leaves_running : List Act → Bool
leaves_running acts = any is_start acts && not (any is_stop acts)

with_syncthing-leaves_running :
    (e : Steps)
    → leaves_running (with_syncthing e (releases_lock ∷ []))
      ≡ (any is_start (with_syncthing e (releases_lock ∷ [])) && not (e.static_ok && e.backend_ok))
unfolding with_syncthing serve_files
with_syncthing-leaves_running e = ground arith

-- When the service ends, Syncthing runs on exactly if the service had started it and then the files of
-- the user interface were missing or the backend ended with an error: `log.Fatalf` skips the deferred
-- `Stop`.
pub run-leaves_running :
    (e : Steps)
    → leaves_running (run e) ≡ (any is_start (run e) && not (e.static_ok && e.backend_ok))
unfolding run
run-leaves_running e = ground (arith, with_syncthing-leaves_running e)
