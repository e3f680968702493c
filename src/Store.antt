-- ===== src/Store.antt =====
-- internal/store/store.go: the settings row. `encode` and `decode` stand for the JSON of a list of
-- texts; a row that cannot be read is none.
pub mod PowerEvents
pub mod Power
pub mod Level
mod Tests
use we_sync.Base.{
  ℕ, Bool, true, false, not, ◌&&◌, ◌||◌, List, [], ◌∷◌, Option, none, some, String, or_else,
  if◌then◌else◌, ◌is◌, ℤ, pos, is_pos, is_below,
}
use we_sync.Mobile.Decision.{PowerSettings}

pub record Settings : Type 0 where
  pub name : String
  pub visible : Bool
  pub introducer : Bool
  pub connectivity_level : ℤ
  pub unpause_migration_done : Bool
  pub power_sync_trigger : String
  pub power_periodic_minutes : ℤ
  pub power_on_change_poll_minutes : ℤ
  pub power_scheduled_times : String
  pub power_network_mode : String
  pub power_trusted_ssids : String
  pub power_pause_when_battery_low : Bool
  pub power_keep_syncing_while_charging : Bool
  pub power_block_metered_roaming : Bool

unfoldable pub get_introducer : Option Settings → Bool
get_introducer none = true
get_introducer (some r) = r.introducer

unfoldable pub get_visible : Option Settings → Bool
get_visible none = true
get_visible (some r) = r.visible

unfoldable pub get_connectivity_level : Option Settings → ℤ
get_connectivity_level none = pos 1
get_connectivity_level (some r) =
    if not (is_pos r.connectivity_level) || is_below (pos 3) r.connectivity_level
    then pos 1
    else r.connectivity_level

unfoldable pub set_connectivity_level : ℤ → Settings → Settings
set_connectivity_level level r = record r { connectivity_level = level }

unfoldable pub set_visible : Bool → Settings → Settings
set_visible v r = record r { visible = v }

unfoldable pub set_name : String → Settings → Settings
set_name name r = record r { name = name }

unfoldable pub unpause_migration_done : Option Settings → Bool
unpause_migration_done none = false
unpause_migration_done (some r) = r.unpause_migration_done

unfoldable pub mark_unpause_migration_done : Settings → Settings
mark_unpause_migration_done r = record r { unpause_migration_done = true }

-- `Open`, on a table that has the row or not: the row of a fresh database, and the introducer of an
-- old one. The other columns of a fresh row have the defaults of the schema.
unfoldable pub open_row : Settings → Option Settings → Settings
open_row defaults none = record defaults { introducer = true }
open_row defaults (some r) = record r { introducer = true }

module _ (encode : List String → String) (decode : String → Option (List String)) where
  -- `jsonUnmarshalStrings`; an error leaves the list nil, and then it is empty.
  abbrev pub strings_of : String → List String
  strings_of s = if s is "" then [] else or_else [] (decode s)

  unfoldable pub get_power_settings : Option Settings → Option PowerSettings
  get_power_settings none = none
  get_power_settings (some r) = some (record {
    sync_trigger =
        if (r.power_sync_trigger is "")
          || (r.power_sync_trigger is "live")
          || (r.power_sync_trigger is "on_change")
        then "on_change_poll"
        else r.power_sync_trigger;
    periodic_minutes =
        if is_pos r.power_periodic_minutes then r.power_periodic_minutes else pos 240;
    on_change_poll_minutes =
        if is_pos r.power_on_change_poll_minutes then r.power_on_change_poll_minutes else pos 30;
    scheduled_times = strings_of r.power_scheduled_times;
    network_mode = if r.power_network_mode is "" then "any_wifi" else r.power_network_mode;
    trusted_ssids = strings_of r.power_trusted_ssids;
    pause_when_battery_low = r.power_pause_when_battery_low;
    block_metered_roaming = r.power_block_metered_roaming;
  })

  unfoldable pub set_power_settings : PowerSettings → Settings → Settings
  set_power_settings p r = record r {
    power_sync_trigger = p.sync_trigger;
    power_periodic_minutes = p.periodic_minutes;
    power_on_change_poll_minutes = p.on_change_poll_minutes;
    power_scheduled_times = encode p.scheduled_times;
    power_network_mode = p.network_mode;
    power_trusted_ssids = encode p.trusted_ssids;
    power_pause_when_battery_low = p.pause_when_battery_low;
    power_block_metered_roaming = p.block_metered_roaming;
  }
