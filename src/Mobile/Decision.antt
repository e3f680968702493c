-- ===== src/Mobile/Decision.antt =====
-- mobile/gate_decision.go: the decision of the power gate, a pure function of a snapshot of its
-- inputs. A time is a number of nanoseconds, and 0 is Go's zero time. `fold` is the Unicode case
-- folding that `strings.EqualFold` uses.
use we_sync.Base.{
  ℕ, ◌+◌, ◌*◌, Bool, true, false, not, ◌&&◌, ◌||◌, List, String, if◌then◌else◌, ltb, any, ◌is◌,
  equal_fold, ℤ,
}

abbrev pub second : ℕ
second = 1_000_000_000

-- The constants of mobile/gate.go.
abbrev pub connect_grace : ℕ
connect_grace = 120 * second

abbrev pub active_sync_extend : ℕ
active_sync_extend = 300 * second

abbrev pub sync_poll_interval : ℕ
sync_poll_interval = 15 * second

abbrev pub foreground_grace : ℕ
foreground_grace = 60 * second

abbrev pub trigger_periodic : String
trigger_periodic = "periodic"

abbrev pub trigger_scheduled : String
trigger_scheduled = "scheduled"

abbrev pub trigger_on_change_poll : String
trigger_on_change_poll = "on_change_poll"

-- `store.PowerSettings`.
pub record PowerSettings : Type 0 where
  pub sync_trigger : String
  pub periodic_minutes : ℤ
  pub on_change_poll_minutes : ℤ
  pub scheduled_times : List String
  pub network_mode : String
  pub trusted_ssids : List String
  pub pause_when_battery_low : Bool
  pub block_metered_roaming : Bool

-- `snapshot`.
pub record Snapshot : Type 0 where
  pub st_exe_path : String
  pub app_foreground : Bool
  pub current_ssid : String
  pub has_wifi : Bool
  pub battery_low : Bool
  pub metered : Bool
  pub roaming : Bool
  pub active_wifi : Bool
  pub settings : PowerSettings
  pub session_ends_at : ℕ
  pub foreground_until : ℕ

-- `probeResult` of mobile/gate_reconcile.go.
pub record ProbeResult : Type 0 where
  pub folder_busy : Bool
  pub peer_behind : Bool
  pub connected : Bool

unfoldable pub battery_allowed : Snapshot → Bool
battery_allowed s = not s.settings.pause_when_battery_low || not s.battery_low

unfoldable pub session_open : Snapshot → ℕ → Bool
session_open s now = ltb now s.session_ends_at

unfoldable pub keepalive_busy : ProbeResult → Bool
keepalive_busy pr = pr.folder_busy || pr.peer_behind

unfoldable pub next_session_end : ℕ → ℕ → ℕ → Bool → Bool → ℕ
next_session_end now started_at current busy connected =
    if busy
    then now + active_sync_extend
    else if not connected && ltb now (started_at + connect_grace)
    then started_at + connect_grace
    else current

-- The connections that cost extra: roaming, or a metered WiFi.
unfoldable pub costs_extra : Snapshot → Bool
costs_extra s = s.roaming || (s.metered && s.active_wifi)

module _ (fold : ℕ → ℕ) where
  unfoldable pub trusted_wifi : Snapshot → Bool
  trusted_wifi s =
      if not s.has_wifi || (s.current_ssid is "")
      then false
      else any (λ ssid. equal_fold fold ssid s.current_ssid) s.settings.trusted_ssids

  unfoldable pub network_allowed : Snapshot → Bool
  unfolding costs_extra trusted_wifi
  network_allowed s =
      if s.settings.block_metered_roaming && costs_extra s
      then false
      else if s.settings.network_mode is "any"
      then true
      else if s.settings.network_mode is "any_wifi"
      then s.has_wifi
      else if s.settings.network_mode is "trusted_wifi"
      then trusted_wifi s
      else true

  unfoldable pub desired_running : Snapshot → ℕ → Bool
  desired_running s now =
      if s.app_foreground || ltb now s.foreground_until
      then true
      else if not (network_allowed s)
      then false
      else if not (battery_allowed s)
      then false
      else session_open s now
