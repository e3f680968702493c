-- ===== src/Mobile/Bounds.antt =====
-- The times that the gate keeps, against the clock.
use we_sync.Base.{ℕ, ◌+◌, ◌≤◌, ◌≡◌, Bool, true, List, [], ◌∷◌, arith, map}
use we_sync.Mobile.Decision.{active_sync_extend, foreground_grace, next_session_end}
use we_sync.Mobile.Gate.{Gate, mark_stopped}
use we_sync.Mobile.Events.{
  on_app_foreground, on_network_state, on_battery_low, on_trigger_alarm, on_trigger_poll_alarm,
  open_sync_session, set_power_host, refresh_power_settings,
}
use we_sync.Mobile.Reconcile.{World, Env, drive, finish, reconcile_once}
use we_sync.Mobile.Calls.{
  Call, foreground, network, battery, alarm, poll_alarm, open_session, host, settings, stop, turn,
  apply, run, Within,
}

-- At time `t` a session has started, and neither deadline lies further off than its longest grace;
-- in the foreground no grace is pending.
pub record IsTimely (t : ℕ) (g : Gate) : Type 0 where
  pub started : g.session_started_at ≤ t
  pub ends : g.session_ends_at ≤ t + active_sync_extend
  pub grace : g.foreground_until ≤ t + foreground_grace
  pub no_grace : g.app_foreground ≡ true → g.foreground_until ≡ 0

module _ (fold : ℕ → ℕ) where
  reconcile-IsTimely :
      (t u : ℕ) (w : World) (poll : Bool) (e : Env)
      → Within (turn poll e) t u
      → IsTimely t w.gate
      → IsTimely u (reconcile_once fold w poll e).gate
  unfolding reconcile_once finish drive next_session_end
  reconcile-IsTimely t u w poll e h v = ground arith

  -- Any call keeps the gate's times within their bounds as the clock goes on.
  pub apply-IsTimely :
      (t u : ℕ) (w : World) (c : Call)
      → Within c t u
      → IsTimely t w.gate
      → IsTimely u (apply fold w c).gate
  unfolding apply on_app_foreground on_network_state on_battery_low on_trigger_alarm
      on_trigger_poll_alarm open_sync_session set_power_host refresh_power_settings mark_stopped
  apply-IsTimely t u w (foreground fg now) h v = ground arith
  apply-IsTimely t u w (network n now later) h v = ground arith
  apply-IsTimely t u w (battery low) h v = ground arith
  apply-IsTimely t u w (alarm changed now) h v = ground arith
  apply-IsTimely t u w (poll_alarm changed now) h v = ground arith
  apply-IsTimely t u w (open_session now) h v = ground arith
  apply-IsTimely t u w (host b) h v = ground arith
  apply-IsTimely t u w (settings loaded) h v = ground arith
  apply-IsTimely t u w stop h v = ground arith
  apply-IsTimely t u w (turn poll e) h v = reconcile-IsTimely t u w poll e h v

-- Calls one after the other: each lies between its time and the next.
abbrev pub Schedule : ℕ → List (Call × ℕ) → Type 0
Schedule t [] = Unit
Schedule t ((c, u) ∷ cs) = Within c t u × Schedule u cs

abbrev pub last_time : ℕ → List (Call × ℕ) → ℕ
last_time t [] = t
last_time t ((c, u) ∷ cs) = last_time u cs

module _ (fold : ℕ → ℕ) where
  -- From a gate whose times are within their bounds, after any calls in the order of the clock they
  -- are: a session has started by now and ends within five minutes, a grace ends within one minute,
  -- and none is pending in the foreground.
  pub run-IsTimely :
      (t : ℕ) (w : World) (cs : List (Call × ℕ))
      → Schedule t cs
      → IsTimely t w.gate
      → IsTimely (last_time t cs) (run fold w (map (λ c. c.0) cs)).gate
  unfolding run
  run-IsTimely t w [] h v = v
  run-IsTimely t w ((c, u) ∷ cs) h v =
      run-IsTimely u (apply fold w c) cs h.1 (apply-IsTimely fold t u w c h.0 v)
