-- ===== src/Mobile/Sessions.antt =====
-- How long a session lives: a sync in progress is not interrupted, and an idle gate goes to sleep.
use we_sync.Base.{
  ℕ, ◌+◌, ◌≤◌, ◌<◌, ◌≡◌, refl, Bool, true, false, List, [], ◌∷◌, ◌is◌, arith, All, not_both,
}
use we_sync.Mobile.Decision.{
  active_sync_extend, next_session_end, battery_allowed, session_open, network_allowed, costs_extra,
  trusted_wifi, keepalive_busy, desired_running,
}
use we_sync.Mobile.Gate.{Gate, snapshot}
use we_sync.Mobile.Reconcile.{World, Env, extend, drive, finish, reconcile_once}
use we_sync.Mobile.Bounds.{IsTimely}

-- A poll does not lengthen the session of a gate that is idle and connected.
idle_end :
    (now started_at current : ℕ) (busy connected : Bool)
    → busy ≡ false
    → connected ≡ true
    → next_session_end now started_at current busy connected ≡ current
unfolding next_session_end
idle_end now started_at current busy connected b c = ground arith

-- What a run of `reconcileOnce` may leave changed: the session's end, the logs and the host's state.
pub record SameInputs (g h : Gate) : Type 0 where
  pub path : g.st_exe_path ≡ h.st_exe_path
  pub fg : g.app_foreground ≡ h.app_foreground
  pub until : g.foreground_until ≡ h.foreground_until
  pub net : g.network ≡ h.network
  pub battery : g.battery_low ≡ h.battery_low
  pub settings : g.settings ≡ h.settings
  pub started : g.session_started_at ≡ h.session_started_at

abbrev pub IsIdle : Env → Type 0
IsIdle e = (keepalive_busy e.probe ≡ false) × (e.probe.connected ≡ true)

-- Each poll of a sync in progress: ST is busy, the poll starts before the deadline that the poll
-- before it set, and its decision is made within the time that it adds.
abbrev pub BusyPolls : ℕ → List Env → Type 0
BusyPolls deadline [] = Unit
BusyPolls deadline (e ∷ es) =
    (keepalive_busy e.probe ≡ true)
    × (e.now < deadline)
    × (e.decided_at < e.probed_at + active_sync_extend)
    × BusyPolls (e.probed_at + active_sync_extend) es

-- `fold` is the case folding of `strings.EqualFold`.
module _ (fold : ℕ → ℕ) where
  reconcile-SameInputs :
      (w : World) (poll : Bool) (e : Env) → SameInputs (reconcile_once fold w poll e).gate w.gate
  unfolding reconcile_once finish drive
  reconcile-SameInputs w poll e = ground arith

  idle-ends :
      (w : World) (poll : Bool) (e : Env)
      → IsIdle e
      → (reconcile_once fold w poll e).gate.session_ends_at ≡ w.gate.session_ends_at
  unfolding reconcile_once finish drive next_session_end
  idle-ends w poll e h = ground arith

  unfoldable pub run_polls : World → List Env → World
  run_polls w [] = w
  run_polls w (e ∷ es) = run_polls (reconcile_once fold w true e) es

  idle_sleep :
      (w : World) (poll : Bool) (e : Env)
      → (w.gate.st_exe_path is "") ≡ false
      → w.gate.app_foreground ≡ false
      → w.gate.foreground_until ≤ e.now
      → w.gate.session_ends_at ≤ e.now
      → (reconcile_once fold w poll e).running ≡ false
  unfolding reconcile_once finish drive desired_running session_open snapshot
  idle_sleep w poll e path fg until ends = ground arith

  -- In the background, from a gate in charge whose times are within their bounds at time `t`, and with polls
  -- that find Syncthing idle with its peers connected, a run of `reconcileOnce` five minutes after
  -- `t` or later leaves Syncthing stopped, whatever the network and the battery allow.
  pub run_polls-sleep :
      (t : ℕ) (w : World) (es : List Env) (poll : Bool) (e : Env)
      → (w.gate.st_exe_path is "") ≡ false
      → w.gate.app_foreground ≡ false
      → IsTimely t w.gate
      → All IsIdle es
      → t + active_sync_extend ≤ e.now
      → (reconcile_once fold (run_polls w es) poll e).running ≡ false
  unfolding run_polls
  run_polls-sleep t w [] poll e path fg v idle late =
      idle_sleep w poll e path fg (omega arith) (omega arith)
  run_polls-sleep t w (e' ∷ es) poll e path fg v idle late =
      let same = reconcile-SameInputs w true e' in
      run_polls-sleep t (reconcile_once fold w true e') es poll e (rw same.path path)
        (rw same.fg fg)
        (record {
          started = omega arith;
          ends = rw (idle-ends w true e' idle.0) v.ends;
          grace = omega arith;
          no_grace = λ h. absurd (not_both h (rw same.fg fg));
        })
        idle.1 late

  same-network_allowed :
      (g h : Gate)
      → SameInputs g h
      → network_allowed fold (snapshot g) ≡ network_allowed fold (snapshot h)
  unfolding network_allowed costs_extra trusted_wifi snapshot
  same-network_allowed g h same = rw (same.settings, same.net) refl

  same-battery_allowed :
      (g h : Gate) → SameInputs g h → battery_allowed (snapshot g) ≡ battery_allowed (snapshot h)
  unfolding battery_allowed snapshot
  same-battery_allowed g h same = rw (same.settings, same.battery) refl

  extend-SameInputs : (g : Gate) (e : Env) → SameInputs (extend g e) g
  unfolding extend
  extend-SameInputs g e = ground arith

  busy_end :
      (w : World) (e : Env)
      → (w.gate.st_exe_path is "") ≡ false
      → keepalive_busy e.probe ≡ true
      → e.now < w.gate.session_ends_at
      → (reconcile_once fold w true e).gate.session_ends_at ≡ e.probed_at + active_sync_extend
  unfolding reconcile_once finish drive session_open snapshot next_session_end
  busy_end w e path busy early = ground arith

  busy_running :
      (w : World) (e : Env)
      → (w.gate.st_exe_path is "") ≡ false
      → w.running ≡ true
      → network_allowed fold (snapshot w.gate) ≡ true
      → battery_allowed (snapshot w.gate) ≡ true
      → keepalive_busy e.probe ≡ true
      → e.now < w.gate.session_ends_at
      → e.decided_at < e.probed_at + active_sync_extend
      → (reconcile_once fold w true e).running ≡ true
  unfolding reconcile_once finish drive desired_running session_open snapshot next_session_end
  busy_running w e path running net batt busy early soon = ground (
    arith,
    same-network_allowed (extend w.gate e) w.gate (extend-SameInputs w.gate e),
    same-battery_allowed (extend w.gate e) w.gate (extend-SameInputs w.gate e),
  )

  -- In a gate in charge whose Syncthing runs, and which the network and the battery allow to sync,
  -- Syncthing keeps running, however long the sync takes, as long as every poll finds work, starts
  -- before the deadline that the one before it set, and is decided within the time that it adds.
  pub run_polls-running :
      (w : World) (es : List Env)
      → (w.gate.st_exe_path is "") ≡ false
      → w.running ≡ true
      → network_allowed fold (snapshot w.gate) ≡ true
      → battery_allowed (snapshot w.gate) ≡ true
      → BusyPolls w.gate.session_ends_at es
      → (run_polls w es).running ≡ true
  unfolding run_polls
  run_polls-running w [] path running net batt polls = running
  run_polls-running w (e ∷ es) path running net batt (busy, early, soon, rest) =
      let w' = reconcile_once fold w true e in
      let same = reconcile-SameInputs w true e in
      run_polls-running w' es (rw same.path path)
        (busy_running w e path running net batt busy early soon)
        (rw (same-network_allowed w'.gate w.gate same) net)
        (rw (same-battery_allowed w'.gate w.gate same) batt)
        (rw (busy_end w e path busy early) rest)
