-- ===== src/Discovery/Tests.antt =====
-- Some histories of the discovery service.
use we_sync.Base.{◌≡◌, refl, ◌*◌, true, List, [], ◌∷◌, some, arith}
use we_sync.Mobile.Decision.{second}
use we_sync.Node.Peer.{zero_peer}
use we_sync.Discovery.Service.{
  Service, Step, step, set_want_announce, set_foreground, expire_timer, callback, want, fg, hears,
  expiry, new, should_announce,
}
use we_sync.Discovery.Announce.{Move, move, IsQuiet, fires, moves, moves_run, moves_run-quiet}

abbrev session : List Move
session = moves (want true) ∷ moves (fg true) ∷ fires ∷ []

new-IsQuiet : IsQuiet new
unfolding new
new-IsQuiet = record {
  ready = λ h. ground arith;
  timer = λ h. refl;
  no_orphans = refl;
  no_callbacks = refl;
}

moves_run-quiet_example :
    ((moves_run new session).foreground ≡ true) × ((moves_run new session).want_announce ≡ true)
unfolding moves_run move step new should_announce set_want_announce set_foreground expire_timer
    callback
moves_run-quiet_example = moves_run-quiet new session (tt, (tt, (tt, tt))) new-IsQuiet refl

abbrev debounced : Service
debounced = record new { want_announce = true; foreground = true; fg_timer = some true }

abbrev heard_once : List Step
heard_once = hears (record zero_peer { addr = "10.0.0.7" }) (3 * second) ∷ expiry (5 * second) ∷ []
