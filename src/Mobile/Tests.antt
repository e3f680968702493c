-- ===== src/Mobile/Tests.antt =====
-- A phone with no restriction on the network, at some times of its day, and runs of the gate there.
use we_sync.Base.{
  some, String, ◌↔◌, ℕ, ◌≡◌, refl, ◌*◌, true, false, List, [], ◌∷◌, none, pos, arith, ◌is◌,
}
use we_sync.Mobile.Decision.{
  PowerSettings, ProbeResult, second, next_session_end, desired_running, network_allowed,
  battery_allowed, session_open, costs_extra, trusted_wifi, keepalive_busy,
}
use we_sync.Mobile.Gate.{Network, Gate, mark_stopped, snapshot}
use we_sync.Mobile.Reconcile.{World, Env, finish, begin, drive, reconcile_once, extend}
use we_sync.Mobile.Calls.{Call, foreground, open_session, turn, run}
use we_sync.Mobile.Bounds.{IsTimely, run-IsTimely}
use we_sync.Mobile.Lifecycle.{
  MayRun, polled, reconcile_once-desired, reconcile_once-MayRun, run-mark_stopped,
}
use we_sync.Mobile.Sessions.{run_polls, run_polls-sleep, run_polls-running}
use we_sync.Mobile.Poll.{Entry, Entries, entry, nothing, also, scan_folders, poll_check_changed}
use we_sync.Mobile.Poll.Same.{Same, poll_check_changed-Same}
use we_sync.Mobile.Start.{App, Routine, Outcome, launching}

abbrev fold : ℕ → ℕ
fold c = c

abbrev settings_of_phone : PowerSettings
settings_of_phone = record {
  sync_trigger = "foreground";
  periodic_minutes = pos 15;
  on_change_poll_minutes = pos 15;
  scheduled_times = [];
  network_mode = "any_network";
  trusted_ssids = [];
  pause_when_battery_low = true;
  block_metered_roaming = false;
}

abbrev at_home : Network
at_home = record {
  current_ssid = "home";
  has_wifi = true;
  has_mobile = false;
  metered = false;
  roaming = false;
  active_wifi = true;
}

-- In the background, with a session open until 100 s.
abbrev open_gate : Gate
open_gate = record {
  st_exe_path = "/lib/libsyncthing.so";
  store = none;
  settings = settings_of_phone;
  app_foreground = false;
  network = at_home;
  battery_low = false;
  session_started_at = 40 * second;
  session_ends_at = 100 * second;
  foreground_until = 0;
  kick = none;
  host = true;
  host_calls = false ∷ [];
  last_sync_active = false;
}

abbrev opened : World
opened = record { gate = open_gate; running = true }

abbrev closed : World
closed = record { gate = open_gate; running = false }

abbrev busy : ProbeResult
busy = record { folder_busy = true; peer_behind = false; connected = true }

abbrev idle : ProbeResult
idle = record { folder_busy = false; peer_behind = false; connected = true }

abbrev env_at : ℕ → ProbeResult → Env
env_at t p = record {
  now = t * second;
  probe = p;
  probed_at = t * second;
  decided_at = t * second;
  start_error = none;
}

abbrev a_day : List Call
a_day =
    foreground true (41 * second)
    ∷ foreground false (42 * second)
    ∷ open_session (43 * second)
    ∷ turn true (env_at 44 idle)
    ∷ []

run-mark_stopped_example :
    (run fold (record { gate = mark_stopped open_gate; running = false }) a_day).running ≡ false
run-mark_stopped_example = run-mark_stopped fold open_gate a_day

reconcile_once-desired_example :
    (reconcile_once fold closed true (env_at 50 busy)).running
    ≡ desired_running fold
        (snapshot (polled open_gate true (env_at 50 busy)).0)
        (polled open_gate true (env_at 50 busy)).1
unfolding ◌is◌
reconcile_once-desired_example = reconcile_once-desired fold closed true (env_at 50 busy) refl refl

reconcile_once-MayRun_example :
    MayRun fold
      (polled open_gate true (env_at 50 busy)).0
      (polled open_gate true (env_at 50 busy)).1
unfolding reconcile_once begin finish extend snapshot desired_running network_allowed
    battery_allowed session_open costs_extra trusted_wifi keepalive_busy next_session_end ◌is◌ drive
reconcile_once-MayRun_example = reconcile_once-MayRun fold closed true (env_at 50 busy) refl refl

run_polls-running_example :
    (run_polls fold opened (env_at 55 busy ∷ env_at 80 busy ∷ [])).running ≡ true
unfolding network_allowed battery_allowed snapshot keepalive_busy costs_extra trusted_wifi ◌is◌
run_polls-running_example =
    run_polls-running fold opened (env_at 55 busy ∷ env_at 80 busy ∷ []) refl refl refl refl
      (refl, omega arith, omega arith, (refl, omega arith, omega arith, tt))

open_gate-IsTimely : IsTimely (45 * second) open_gate
open_gate-IsTimely = record {
  started = omega arith;
  ends = omega arith;
  grace = omega arith;
  no_grace = λ h. refl;
}

run_polls-sleep_example :
    (reconcile_once fold
      (run_polls fold opened (env_at 55 idle ∷ []))
      true
      (env_at 500 idle)).running
    ≡ false
unfolding keepalive_busy ◌is◌
run_polls-sleep_example =
    run_polls-sleep fold (45 * second) opened (env_at 55 idle ∷ []) true (env_at 500 idle) refl refl
      open_gate-IsTimely ((refl, refl), tt) (omega arith)

run-IsTimely_example :
    IsTimely
      (60 * second)
      (run fold opened (foreground true (50 * second) ∷ turn true (env_at 60 busy) ∷ [])).gate
run-IsTimely_example =
    run-IsTimely fold (45 * second) opened
      ((foreground true (50 * second), 55 * second)
        ∷ (turn true (env_at 60 busy), 60 * second)
        ∷ [])
      ((omega arith, omega arith), ((omega arith, omega arith, omega arith, omega arith), tt))
      open_gate-IsTimely

-- The app is stopped while its goroutine is about to start the process.
abbrev opening : App
opening = record {
  cancel = some 0;
  next_ctx = 1;
  cancelled = [];
  last_err = none;
  world = record { gate = mark_stopped open_gate; running = false };
}

abbrev goroutine : Routine
goroutine = record { ctx = 0; exe = "/lib/libsyncthing.so"; phase = launching }

abbrev fine : Outcome
fine = record { error = none; store = none; loaded = none }

-- Two looks at a folder: a directory of it has come in between.
abbrev folder_of : Entries → String × Entry
folder_of es = ("/sync", entry "sync" true (some 7) es)

abbrev album : Entry
album = entry "album" true (some 8) nothing

poll_check_changed-Same_example :
    (poll_check_changed
        (poll_check_changed none (some (folder_of nothing ∷ []))).0
        (some (folder_of (also album nothing) ∷ []))).1
      ≡ false
    ↔ Same
        (scan_folders (folder_of nothing ∷ []) [])
        (scan_folders (folder_of (also album nothing) ∷ []) [])
poll_check_changed-Same_example =
    poll_check_changed-Same none (folder_of nothing) (folder_of (also album nothing)) [] []
