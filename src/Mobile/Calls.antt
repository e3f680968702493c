-- ===== src/Mobile/Calls.antt =====
-- The gate driven by any sequence of calls: the entry points of mobile/events.go, `markStopped`, and
-- runs of `reconcileOnce`.
use we_sync.Base.{ℕ, ◌≤◌, Bool, List, [], ◌∷◌, Option}
use we_sync.Mobile.Decision.{PowerSettings}
use we_sync.Mobile.Gate.{Network, mark_stopped}
use we_sync.Mobile.Events.{
  on_app_foreground, on_network_state, on_battery_low, on_trigger_alarm, on_trigger_poll_alarm,
  open_sync_session, set_power_host, refresh_power_settings,
}
use we_sync.Mobile.Reconcile.{World, Env, reconcile_once}

pub data Call : Type 0 where
  foreground : Bool → ℕ → Call
  network : Network → ℕ → ℕ → Call
  battery : Bool → Call
  alarm : Bool → ℕ → Call
  poll_alarm : Bool → ℕ → Call
  open_session : ℕ → Call
  host : Bool → Call
  settings : Option PowerSettings → Call
  stop : Call
  turn : Bool → Env → Call

-- `fold` is the case folding of `strings.EqualFold`.
module _ (fold : ℕ → ℕ) where
  unfoldable pub apply : World → Call → World
  apply w (foreground fg now) = record w { gate = on_app_foreground w.gate fg now }
  apply w (network n now later) = record w { gate = on_network_state fold w.gate n now later }
  apply w (battery low) = record w { gate = on_battery_low w.gate low }
  apply w (alarm changed now) = record w { gate = on_trigger_alarm fold w.gate changed now }
  apply w (poll_alarm changed now) = record w {
    gate = on_trigger_poll_alarm fold w.gate changed now;
  }
  apply w (open_session now) = record w { gate = open_sync_session w.gate now }
  apply w (host h) = record w { gate = set_power_host w.gate h }
  apply w (settings loaded) = record w { gate = refresh_power_settings w.gate loaded }
  apply w stop = record w { gate = mark_stopped w.gate }
  apply w (turn poll e) = reconcile_once fold w poll e

  unfoldable pub run : World → List Call → World
  unfolding apply
  run w [] = w
  run w (c ∷ cs) = run (apply w c) cs

-- The clock readings of a call lie between two times, in their order.
abbrev pub Within : Call → ℕ → ℕ → Type 0
Within (foreground fg now) t u = (t ≤ now) × (now ≤ u)
Within (network n now later) t u = (t ≤ now) × (now ≤ later) × (later ≤ u)
Within (battery low) t u = t ≤ u
Within (alarm changed now) t u = (t ≤ now) × (now ≤ u)
Within (poll_alarm changed now) t u = (t ≤ now) × (now ≤ u)
Within (open_session now) t u = (t ≤ now) × (now ≤ u)
Within (host h) t u = t ≤ u
Within (settings loaded) t u = t ≤ u
Within stop t u = t ≤ u
Within (turn poll e) t u =
    (t ≤ e.now) × (e.now ≤ e.probed_at) × (e.probed_at ≤ e.decided_at) × (e.decided_at ≤ u)
