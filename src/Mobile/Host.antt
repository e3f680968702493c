-- ===== src/Mobile/Host.antt =====
-- What the platform's host is told.
use we_sync.Base.{
  ℕ, ◌≡◌, refl, sym, ap, subst, ◌⊎◌, inl, inr, Bool, true, false, ◌&&◌, List, [], ◌∷◌, Option,
  String, ◌is◌, arith, Bool-cases,
}
use we_sync.Mobile.Decision.{Snapshot, session_open, desired_running}
use we_sync.Mobile.Gate.{Gate, snapshot, notify_host, mark_stopped}
use we_sync.Mobile.Lifecycle.{polled}
use we_sync.Mobile.Events.{
  on_app_foreground, on_network_state, on_battery_low, on_trigger_alarm, on_trigger_poll_alarm,
  open_sync_session, set_power_host, refresh_power_settings,
}
use we_sync.Mobile.Reconcile.{World, Env, extend, finish, drive, reconcile_once}
use we_sync.Mobile.Calls.{
  Call, foreground, network, battery, alarm, poll_alarm, open_session, host, settings, stop, turn,
  apply, run,
}

-- The last call of `OnSyncActive`, if there was one, said `b`.
abbrev pub Told : Bool → List Bool → Type 0
Told b [] = ⊥
Told b (c ∷ cs) = c ≡ b

-- A registered host has last been told the run state that the gate remembers.
abbrev pub IsInformed : Gate → Type 0
IsInformed g = g.host ≡ true → Told g.last_sync_active g.host_calls

-- Two gates that agree on what concerns the host.
record SameHost (g h : Gate) : Type 0 where
  host : g.host ≡ h.host
  calls : g.host_calls ≡ h.host_calls
  last : g.last_sync_active ≡ h.last_sync_active

SameHost-IsInformed : {g h : Gate} → SameHost g h → IsInformed h → IsInformed g
SameHost-IsInformed s v e = rw (s.calls, s.last) (v (rw s.host at e))

notify_host-IsInformed :
    (g : Gate) (active : Bool) → IsInformed g → IsInformed (notify_host g active)
unfolding notify_host
notify_host-IsInformed g active v h = ground (arith, v h)

set_power_host-IsInformed : (g : Gate) (b : Bool) → IsInformed (set_power_host g b)
unfolding set_power_host
set_power_host-IsInformed g true h = refl
set_power_host-IsInformed g false h = cc

drive-SameHost :
    (w : World) (snap : Snapshot) (want : Bool) (e : Option String)
    → SameHost (drive w snap want e).gate w.gate
unfolding drive
drive-SameHost w snap want e = ground arith

mark_stopped-IsInformed : (g : Gate) → IsInformed g → IsInformed (mark_stopped g)
unfolding mark_stopped
mark_stopped-IsInformed g v h = ground (arith, v)

-- `fold` is the case folding of `strings.EqualFold`.
module _ (fold : ℕ → ℕ) where
  finish-IsInformed :
      (w : World) (snap : Snapshot) (now : ℕ) (e : Option String)
      → IsInformed w.gate
      → IsInformed (finish fold w snap now e).gate
  unfolding finish
  finish-IsInformed w snap now e v =
      let want = desired_running fold snap now in
      notify_host-IsInformed (drive w snap want e).gate want
        (SameHost-IsInformed (drive-SameHost w snap want e) v)

  reconcile_cases :
      (w : World) (poll : Bool) (e : Env)
      → (reconcile_once fold w poll e ≡ w)
        ⊎ ((w' : World) × (snap : Snapshot) × (now : ℕ) × SameHost w'.gate w.gate
            × (reconcile_once fold w poll e ≡ finish fold w' snap now e.start_error))
  unfolding reconcile_once
  reconcile_cases w poll e = elim (Bool-cases (w.gate.st_exe_path is "")) [
    | inl gone ↦ inl (ground arith)
    | inr path ↦ elim (Bool-cases (poll && session_open (snapshot w.gate) e.now)) [
      | inl yes_poll ↦ inr (
        record w { gate = extend w.gate e },
        snapshot (extend w.gate e),
        e.decided_at,
        ground arith,
        ground arith,
      )
      | inr quiet ↦ inr (w, snapshot w.gate, e.now, ground arith, ground arith)
    ]
  ]

  reconcile-IsInformed :
      (w : World) (poll : Bool) (e : Env)
      → IsInformed w.gate
      → IsInformed (reconcile_once fold w poll e).gate
  reconcile-IsInformed w poll e v = elim (reconcile_cases w poll e) [
    | inl same ↦ subst IsInformed (ap (λ x. x.gate) (sym same)) v
    | inr (w', snap, now, same, finished) ↦
        subst IsInformed (ap (λ x. x.gate) (sym finished))
          (finish-IsInformed w' snap now e.start_error (SameHost-IsInformed same v))
  ]

  calls-SameHost :
      (w : World) (c : Call)
      → (IsInformed w.gate → IsInformed (apply fold w c).gate)
        ⊎ SameHost (apply fold w c).gate w.gate
  unfolding apply on_app_foreground on_network_state on_battery_low on_trigger_alarm
      on_trigger_poll_alarm open_sync_session refresh_power_settings
  calls-SameHost w (foreground fg now) = inr (ground arith)
  calls-SameHost w (network n now later) = inr (ground arith)
  calls-SameHost w (battery low) = inr (ground arith)
  calls-SameHost w (alarm changed now) = inr (ground arith)
  calls-SameHost w (poll_alarm changed now) = inr (ground arith)
  calls-SameHost w (open_session now) = inr (ground arith)
  calls-SameHost w (host b) = inl (λ v. set_power_host-IsInformed w.gate b)
  calls-SameHost w (settings loaded) = inr (ground arith)
  calls-SameHost w stop = inl (mark_stopped-IsInformed w.gate)
  calls-SameHost w (turn poll e) = inl (reconcile-IsInformed w poll e)

  apply-IsInformed : (w : World) (c : Call) → IsInformed w.gate → IsInformed (apply fold w c).gate
  apply-IsInformed w c v = elim (calls-SameHost w c) [
    | inl keeps ↦ keeps v
    | inr same ↦ SameHost-IsInformed same v
  ]

  -- If a registered host has last been told the run state that the gate remembers, so it has after
  -- any sequence of calls.
  pub run-IsInformed :
      (w : World) (cs : List Call) → IsInformed w.gate → IsInformed (run fold w cs).gate
  unfolding run
  run-IsInformed w [] v = v
  run-IsInformed w (c ∷ cs) v = run-IsInformed (apply fold w c) cs (apply-IsInformed w c v)

  -- After a run of `reconcileOnce` of a gate in charge, a registered host that was informed has last
  -- been told the decision of that run.
  pub reconcile_once-Told :
      (w : World) (poll : Bool) (e : Env)
      → (w.gate.st_exe_path is "") ≡ false
      → w.gate.host ≡ true
      → IsInformed w.gate
      → Told
          (desired_running fold (snapshot (polled w.gate poll e).0) (polled w.gate poll e).1)
          (reconcile_once fold w poll e).gate.host_calls
  unfolding reconcile_once finish drive
  reconcile_once-Told w poll e path h v = ground (arith, v h)
