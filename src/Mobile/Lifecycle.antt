-- ===== src/Mobile/Lifecycle.antt =====
-- Who starts and stops Syncthing, and when.
use we_sync.Base.{
  ℕ, ◌<◌, ◌≡◌, refl, ◌⊎◌, Bool, true, false, ◌&&◌, ◌||◌, List, [], ◌∷◌, none, some, ◌is◌, arith,
  ltb, if◌then◌else◌, is_iff,
}
use we_sync.Mobile.Decision.{
  Snapshot, battery_allowed, session_open, network_allowed, desired_running,
}
use we_sync.Mobile.Gate.{Gate, snapshot, mark_stopped}
use we_sync.Mobile.Events.{
  on_app_foreground, on_network_state, on_battery_low, on_trigger_alarm, on_trigger_poll_alarm,
  open_sync_session, set_power_host, refresh_power_settings, should_stay_resident,
}
use we_sync.Mobile.Reconcile.{World, Env, begin, extend, drive, finish, reconcile_once}
use we_sync.Mobile.Calls.{Call, apply, run}

-- Why Syncthing may run in a gate: the app is in the foreground or within its grace, or a session is
-- open that the network and the battery allow.
abbrev pub MayRun : (ℕ → ℕ) → Gate → ℕ → Type 0
MayRun fold g now =
    (g.app_foreground ≡ true)
    ⊎ (now < g.foreground_until)
    ⊎ ((network_allowed fold (snapshot g) ≡ true)
        × (battery_allowed (snapshot g) ≡ true)
        × (now < g.session_ends_at))

-- The gate after the poll of a run, and the time of its decision.
abbrev pub polled : Gate → Bool → Env → Gate × ℕ
polled g poll e =
    if poll && session_open (snapshot g) e.now then (extend g e, e.decided_at) else (g, e.now)

module _ (fold : ℕ → ℕ) where
  desired_MayRun :
      (g : Gate) (now : ℕ) → desired_running fold (snapshot g) now ≡ true → MayRun fold g now
  unfolding desired_running session_open snapshot
  desired_MayRun g now h = ground arith

  -- After a run of `reconcileOnce` of a gate that is in charge, Syncthing runs exactly if the
  -- decision at that time says so, unless a start fails.
  pub reconcile_once-desired :
      (w : World) (poll : Bool) (e : Env)
      → (w.gate.st_exe_path is "") ≡ false
      → e.start_error ≡ none
      → (reconcile_once fold w poll e).running
        ≡ desired_running fold (snapshot (polled w.gate poll e).0) (polled w.gate poll e).1
  unfolding reconcile_once finish drive
  reconcile_once-desired w poll e path started = ground arith

  -- If Syncthing runs after a run of `reconcileOnce` of a gate in charge, whether or not a start
  -- failed, then the app is in the foreground or within its grace, or a session is open that the
  -- network and the battery allow.
  pub reconcile_once-MayRun :
      (w : World) (poll : Bool) (e : Env)
      → (w.gate.st_exe_path is "") ≡ false
      → (reconcile_once fold w poll e).running ≡ true
      → MayRun fold (polled w.gate poll e).0 (polled w.gate poll e).1
  unfolding reconcile_once finish drive
  reconcile_once-MayRun w poll e path h =
      desired_MayRun (polled w.gate poll e).0 (polled w.gate poll e).1 (ground arith)

  apply-stopped :
      (w : World) (c : Call)
      → w.gate.st_exe_path ≡ ""
      → w.running ≡ false
      → ((apply fold w c).gate.st_exe_path ≡ "") × ((apply fold w c).running ≡ false)
  unfolding apply on_app_foreground on_network_state on_battery_low on_trigger_alarm
      on_trigger_poll_alarm open_sync_session set_power_host refresh_power_settings mark_stopped
      reconcile_once
  apply-stopped w c path h = ground (arith, path, h, is_iff w.gate.st_exe_path "")

  -- Once the gate has given up its authority, no sequence of calls starts Syncthing.
  pub run-stopped :
      (w : World) (cs : List Call)
      → w.gate.st_exe_path ≡ ""
      → w.running ≡ false
      → (run fold w cs).running ≡ false
  unfolding run
  run-stopped w [] path h = h
  run-stopped w (c ∷ cs) path h =
      let (path', h') = apply-stopped w c path h in run-stopped (apply fold w c) cs path' h'

  same-network_allowed :
      (s : Snapshot) (fg : Bool) (grace ends : ℕ)
      → network_allowed fold
          (record s { app_foreground = fg; foreground_until = grace; session_ends_at = ends })
        ≡ network_allowed fold s
  unfolding network_allowed
  same-network_allowed s fg grace ends = refl

  -- Syncthing is wanted exactly if the app is in the foreground, or within its grace, or
  -- `ShouldStayResident` answers yes.
  pub desired_running-resident :
      (g : Gate) (now : ℕ)
      → desired_running fold (snapshot g) now
        ≡ (g.app_foreground || ltb now g.foreground_until || should_stay_resident fold g now)
  unfolding desired_running should_stay_resident battery_allowed session_open
  desired_running-resident g now =
      ground (arith, same-network_allowed (snapshot g) false 0 g.session_ends_at)

  -- After `markStopped` and the stop of the process, no sequence of entry points, of further
  -- `markStopped` and of whole runs of `reconcileOnce` starts Syncthing again. (`initGate`, which
  -- gives the gate its path back, is not among them.)
  pub run-mark_stopped :
      (g : Gate) (cs : List Call)
      → (run fold (record { gate = mark_stopped g; running = false }) cs).running ≡ false
  unfolding mark_stopped
  run-mark_stopped g cs =
      run-stopped (record { gate = mark_stopped g; running = false }) cs (ground arith) refl

  -- A run of `reconcileOnce` that has taken its snapshot before `markStopped`, and that wants
  -- Syncthing, starts it after the teardown.
  pub begin-mark_stopped-finish :
      (g : Gate) (snap : Snapshot) (now : ℕ)
      → begin g ≡ some snap
      → desired_running fold snap now ≡ true
      → (finish fold (record { gate = mark_stopped g; running = false }) snap now none).running
        ≡ true
  unfolding finish drive
  begin-mark_stopped-finish g snap now b h = ground arith
