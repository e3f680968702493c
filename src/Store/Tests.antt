-- ===== src/Store/Tests.antt =====
-- Settings of every minute, and a PUT of invalid ones.
use we_sync.Base.{ℕ, take, [], ◌∷◌, ◌≡◌, arith}
use we_sync.Base.{some, pos}
use we_sync.Store.PowerEvents.{
  PowerEvent, append_all, newest_first, shown, power_events, power_events-newest,
}
use we_sync.Base.{true, false, [], ◌≡◌, pos}
use we_sync.Mobile.Decision.{PowerSettings}
use we_sync.Store.{Settings}

abbrev row : Settings
row = record {
  name = "me";
  visible = true;
  introducer = true;
  connectivity_level = pos 1;
  unpause_migration_done = true;
  power_sync_trigger = "live";
  power_periodic_minutes = pos 0;
  power_on_change_poll_minutes = pos 0;
  power_scheduled_times = "[]";
  power_network_mode = "";
  power_trusted_ssids = "[]";
  power_pause_when_battery_low = true;
  power_keep_syncing_while_charging = false;
  power_block_metered_roaming = true;
}

abbrev strange : PowerSettings
strange = record {
  sync_trigger = "always";
  periodic_minutes = pos 0;
  on_change_poll_minutes = pos 0;
  scheduled_times = [];
  network_mode = "wifi";
  trusted_ssids = [];
  pause_when_battery_low = false;
  block_metered_roaming = false;
}

abbrev usual : PowerSettings
usual = record strange {
  sync_trigger = "periodic";
  periodic_minutes = pos 60;
  on_change_poll_minutes = pos 5;
  network_mode = "any";
}

abbrev slept : ℕ → PowerEvent
slept t = record { timestamp = t; kind = "sleep"; message = "" }

power_events-newest_example :
    power_events (some (pos 2)) (append_all (λ e f. true) [] (slept 1 ∷ slept 2 ∷ slept 3 ∷ []))
    ≡ take (shown (some (pos 2))) (newest_first [] (slept 1 ∷ slept 2 ∷ slept 3 ∷ []))
power_events-newest_example =
    power_events-newest (λ e f. true) (some (pos 2)) (slept 1 ∷ slept 2 ∷ slept 3 ∷ [])
      (omega arith, (omega arith, (omega arith, tt)))
