-- ===== src/Mobile/Status.antt =====
-- `GateStatusJSON`, `WakePlanJSON` and `LogPowerEvent` of mobile/events.go: what the gate tells the app
-- of itself, before it is written as JSON. A duration is cut to whole seconds.
use we_sync.Base.{
  ℕ, ◌-◌, ◌/◌, ◌≡◌, Bool, not, ◌&&◌, ◌||◌, List, String, ℤ, if◌then◌else◌, ltb, ◌==◌, arith,
}
use we_sync.Mobile.Decision.{
  second, session_open, network_allowed, battery_allowed, desired_running,
}
use we_sync.Mobile.Gate.{Gate, snapshot, emit_event}

pub record Plan : Type 0 where
  pub mode : String
  pub periodic_minutes : ℤ
  pub on_change_poll_minutes : ℤ
  pub scheduled_times : List String

unfoldable pub wake_plan : Gate → Plan
wake_plan g = record {
  mode = g.settings.sync_trigger;
  periodic_minutes = g.settings.periodic_minutes;
  on_change_poll_minutes = g.settings.on_change_poll_minutes;
  scheduled_times = g.settings.scheduled_times;
}

pub record Status : Type 0 where
  pub st_running : Bool
  pub app_foreground : Bool
  pub has_wifi : Bool
  pub has_mobile : Bool
  pub current_ssid : String
  pub battery_low : Bool
  pub metered : Bool
  pub roaming : Bool
  pub active_wifi : Bool
  pub network_gate_passed : Bool
  pub window_open : Bool
  pub window_ends_in_secs : ℕ

-- `running` is the answer of `stmanager.IsRunning`. The subtraction stops at 0, as the clamp does.
unfoldable pub gate_status : (ℕ → ℕ) → Gate → Bool → ℕ → Status
unfolding snapshot
gate_status fold g running now =
    let snap = snapshot g in
    let is_open = session_open snap now in
    record {
      st_running = running;
      app_foreground = snap.app_foreground;
      has_wifi = snap.has_wifi;
      has_mobile = g.network.has_mobile;
      current_ssid = snap.current_ssid;
      battery_low = snap.battery_low;
      metered = snap.metered;
      roaming = snap.roaming;
      active_wifi = snap.active_wifi;
      network_gate_passed = network_allowed fold snap;
      window_open = is_open;
      window_ends_in_secs =
          if is_open && not (snap.session_ends_at == 0)
          then (snap.session_ends_at - now) / second
          else 0;
    }

unfoldable pub log_power_event : Gate → String → String → Gate
log_power_event g kind message = emit_event g kind message

-- The status shows why Syncthing is to run, apart from the grace after the app has left the screen and
-- from the setting of the battery: in the foreground, or with the network's gate passed and a session
-- open while the battery allows it.
pub gate_status-desired :
    (fold : ℕ → ℕ) (g : Gate) (running : Bool) (now : ℕ)
    → let s = gate_status fold g running now in
      desired_running fold (snapshot g) now ≡ (
        s.app_foreground
        || ltb now g.foreground_until
        || (s.network_gate_passed
            && not (g.settings.pause_when_battery_low && s.battery_low)
            && s.window_open))
unfolding gate_status desired_running battery_allowed snapshot
gate_status-desired fold g running now = ground arith
