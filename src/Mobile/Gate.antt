-- ===== src/Mobile/Gate.antt =====
-- mobile/gate.go: the gate's state and its lifecycle. A method returns the new gate. What the gate
-- tells the outside is kept in two logs, newest first: the rows of the event log (none while no
-- store is open), and the calls of the host's `OnSyncActive`.
use we_sync.Base.{
  ℕ, Bool, true, false, List, [], ◌∷◌, ◌++◌, Option, none, some, String, if◌then◌else◌, beq_bool,
  ◌is◌, text_append, join_comma,
}
use we_sync.Mobile.Decision.{PowerSettings, Snapshot}

pub record PowerEvent : Type 0 where
  pub kind : String
  pub message : String

-- The connectivity that `OnNetworkState` reports.
pub record Network : Type 0 where
  pub current_ssid : String
  pub has_wifi : Bool
  pub has_mobile : Bool
  pub metered : Bool
  pub roaming : Bool
  pub active_wifi : Bool

pub record Gate : Type 0 where
  pub st_exe_path : String
  pub store : Option (List PowerEvent)
  pub settings : PowerSettings
  pub app_foreground : Bool
  pub network : Network
  pub battery_low : Bool
  pub session_started_at : ℕ
  pub session_ends_at : ℕ
  pub foreground_until : ℕ
  pub kick : Option Bool  -- the channel, and whether a kick waits in it
  pub host : Bool  -- a host is registered
  pub host_calls : List Bool
  pub last_sync_active : Bool

-- `snapshotLocked`.
unfoldable pub snapshot : Gate → Snapshot
snapshot g = record {
  st_exe_path = g.st_exe_path;
  app_foreground = g.app_foreground;
  current_ssid = g.network.current_ssid;
  has_wifi = g.network.has_wifi;
  battery_low = g.battery_low;
  metered = g.network.metered;
  roaming = g.network.roaming;
  active_wifi = g.network.active_wifi;
  settings = g.settings;
  session_ends_at = g.session_ends_at;
  foreground_until = g.foreground_until;
}

-- `reasonString`.
unfoldable pub reason_string : Snapshot → String
reason_string s = join_comma (
    (if s.app_foreground then "WS foreground" else "WS background")
    ∷ text_append "network=" s.settings.network_mode
    ∷ ((if s.current_ssid is "" then [] else text_append "ssid=" s.current_ssid ∷ [])
        ++ (text_append "trigger=" s.settings.sync_trigger
            ∷ (if s.battery_low
                then (if s.settings.pause_when_battery_low then "battery-low" ∷ [] else [])
                else []))))

unfoldable pub emit_event : Gate → String → String → Gate
emit_event g kind message = elim g.store [
  | none ↦ g
  | some rows ↦ record g { store = some (record { kind = kind; message = message } ∷ rows) }
]

-- A send that does not block: the channel holds one kick.
unfoldable pub request_reconcile : Gate → Gate
request_reconcile g = elim g.kick [ none ↦ g | some _ ↦ record g { kick = some true } ]

unfoldable pub notify_host : Gate → Bool → Gate
notify_host g active = record g {
  last_sync_active = active;
  host_calls =
      if beq_bool g.last_sync_active active
      then g.host_calls
      else (if g.host then active ∷ g.host_calls else g.host_calls);
}

-- `refreshSettingsFromDB`, given what the store answers: its settings, or none on an error.
unfoldable pub refresh_settings : Gate → Option PowerSettings → Gate
unfolding emit_event
refresh_settings g loaded = elim g.store [
  | none ↦ g
  | some _ ↦ elim loaded [
    | none ↦ g
    | some p ↦
        emit_event (record g { settings = p }) "settings"
          (text_append "loaded: trigger="
            (text_append p.sync_trigger (text_append " net=" p.network_mode)))
  ]
]

-- `initGate`: `opened` is the store's rows, if it could be opened.
unfoldable pub init_gate : Gate → String → Option (List PowerEvent) → Option PowerSettings → Gate
unfolding emit_event refresh_settings request_reconcile
init_gate g st_exe_path opened loaded =
    let made : Option Bool = elim g.kick [ none ↦ some false | some b ↦ some b ] in
    let g' = record g { st_exe_path = st_exe_path; store = opened; kick = made } in
    request_reconcile
      (emit_event (refresh_settings g' loaded) "start" "gate initialized; ST running")

unfoldable pub mark_stopped : Gate → Gate
unfolding request_reconcile notify_host
mark_stopped g =
    notify_host
      (request_reconcile (record g {
        st_exe_path = "";
        session_started_at = 0;
        session_ends_at = 0;
        foreground_until = 0;
      }))
      false
