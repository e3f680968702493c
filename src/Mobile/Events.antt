-- ===== src/Mobile/Events.antt =====
-- mobile/events.go: what the Android wrapper calls. `now` and `later` are what the clock reads.
use we_sync.Base.{
  ℕ, ◌+◌, Bool, true, false, not, ◌&&◌, ◌||◌, ◌∷◌, Option, none, some, String, if◌then◌else◌,
  beq_bool, ltb, ◌is◌, text_append,
}
use we_sync.Mobile.Decision.{
  PowerSettings, connect_grace, foreground_grace, trigger_on_change_poll, battery_allowed,
  network_allowed, desired_running,
}
use we_sync.Mobile.Gate.{Gate, Network, snapshot, emit_event, request_reconcile, refresh_settings}

unfoldable pub on_app_foreground : Gate → Bool → ℕ → Gate
unfolding emit_event request_reconcile
on_app_foreground g fg now =
    if beq_bool g.app_foreground fg
    then g
    else request_reconcile (
        if fg
        then emit_event (record g { app_foreground = fg; foreground_until = 0 }) "foreground"
            "app foreground — ST forced on"
        else emit_event
            (record g { app_foreground = fg; foreground_until = now + foreground_grace })
            "foreground" "app background — ST may stop after grace")

unfoldable pub open_sync_session : Gate → ℕ → Gate
unfolding emit_event request_reconcile
open_sync_session g now =
    let g' = emit_event g "trigger" "session opened — starting sync" in
    request_reconcile (record g' {
      session_started_at = if ltb now g'.session_ends_at then g'.session_started_at else now;
      session_ends_at = now + connect_grace;
    })

abbrev same_network : Network → Network → Bool
same_network a b =
    (a.current_ssid is b.current_ssid)
    && (beq_bool a.has_wifi b.has_wifi)
    && (beq_bool a.has_mobile b.has_mobile)
    && (beq_bool a.metered b.metered)
    && (beq_bool a.roaming b.roaming)
    && (beq_bool a.active_wifi b.active_wifi)

abbrev network_message : Network → String
network_message n =
    if n.has_wifi
    then if n.current_ssid is ""
      then "wifi — ssid unknown (no location permission)"
      else text_append "wifi — ssid=" n.current_ssid
    else if n.has_mobile
    then "mobile only"
    else "no network"

unfoldable pub on_battery_low : Gate → Bool → Gate
unfolding request_reconcile
on_battery_low g low =
    if beq_bool g.battery_low low then g else request_reconcile (record g { battery_low = low })

unfoldable pub set_power_host : Gate → Bool → Gate
set_power_host g h =
    if h
    then record g { host = true; host_calls = g.last_sync_active ∷ g.host_calls }
    else record g { host = false }

unfoldable pub refresh_power_settings : Gate → Option PowerSettings → Gate
unfolding refresh_settings request_reconcile
refresh_power_settings g loaded = elim loaded [
  | none ↦ elim g.store [ none ↦ request_reconcile g | some _ ↦ g ]
  | some p ↦ request_reconcile (refresh_settings g (some p))
]

module _ (fold : ℕ → ℕ) where
  unfoldable pub on_network_state : Gate → Network → ℕ → ℕ → Gate
  unfolding request_reconcile open_sync_session
  on_network_state g n now later =
      if same_network g.network n
      then g
      else let was_allowed = network_allowed fold (snapshot g) in
        let g' = record g { network = n } in
        let now_allowed = network_allowed fold (snapshot g') in
        let g'' = request_reconcile (emit_event g' "net" (network_message n)) in
        if not was_allowed && now_allowed && not (ltb now g''.session_ends_at)
        then open_sync_session g'' later
        else g''

  -- `poll_changed` is the answer of `pollCheckChanged`.
  unfoldable pub on_trigger_alarm : Gate → Bool → ℕ → Gate
  unfolding emit_event open_sync_session
  on_trigger_alarm g poll_changed now =
      if not (network_allowed fold (snapshot g)) || not (battery_allowed (snapshot g))
      then emit_event g "tick" "conditions not met; alarm ignored"
      else open_sync_session
          (if g.settings.sync_trigger is trigger_on_change_poll
            then emit_event g "tick" (
                if poll_changed
                then "poll — structural changes detected"
                else "poll — no structural changes; syncing anyway")
            else g)
          now

  unfoldable pub on_trigger_poll_alarm : Gate → Bool → ℕ → Gate
  unfolding emit_event open_sync_session
  on_trigger_poll_alarm g poll_changed now =
      if not (network_allowed fold (snapshot g)) || not (battery_allowed (snapshot g))
      then emit_event g "tick" "poll: conditions not met; skipped"
      else if poll_changed
      then open_sync_session
          (emit_event g "tick" "poll: structural changes detected — opening session") now
      else emit_event g "tick" "poll: no structural changes"

  unfoldable pub should_stay_resident : Gate → ℕ → Bool
  unfolding snapshot
  should_stay_resident g now =
      desired_running fold (record (snapshot g) { app_foreground = false; foreground_until = 0 })
        now
