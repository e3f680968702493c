-- ===== src/Api/Introducer.antt =====
-- internal/api/pipeline.go: the introducer flags that `updateTrust` leaves in Syncthing.
use we_sync.Base.{
  Bool, true, not, ◌&&◌, ◌||◌, List, some, String, Map, has, ◌is◌, any, ◌≡◌, beq_bool,
}
use we_sync.Node.State.{State}
use we_sync.Syncthing.{Device}
use we_sync.Api.Backend.{Backend, IsDocumented, IsUp}
use we_sync.Api.App.{App}

-- The flag that a device should have.
abbrev pub wanted : Bool → Map Bool → Device → Bool
wanted introducer introduced d = introducer && not (has d.device_id introduced)

-- The device is another one, with the wrong flag.
abbrev pub is_wrong : Bool → String → Map Bool → Device → Bool
is_wrong introducer self_id introduced d =
    not (d.device_id is self_id) && not (beq_bool d.introducer (wanted introducer introduced d))

-- A listed device still to come has the ID and the same flag.
abbrev pub to_come : List Device → Device → Bool
to_come ds e = any (λ d. (d.device_id is e.device_id) && beq_bool d.introducer e.introducer) ds

module _ (introducer : Bool) (self_id : String) (introduced : Map Bool) where
  abbrev wrong : Device → Bool
  wrong d = is_wrong introducer self_id introduced d

  abbrev pending : List Device → List Device → Bool
  pending ds es = not (any (λ e. wrong e && not (to_come ds e)) es)

  abbrev waits : List Device → Device → Bool
  waits ds e = wrong e && not (to_come ds e)

module _ (b : Backend) (doc : IsDocumented b) (up : IsUp b) (self_id : String)
    (introducer : Bool) where
  -- Syncthing lists devices that are as said.
  abbrev Devices : b.St → (List Device → Bool) → Type 0
  Devices s ok = (es : List Device) × ((b.list_devices s ≡ some es) × (ok es ≡ true))

  abbrev none_wrong : Map Bool → List Device → Bool
  none_wrong introduced es = not (any (is_wrong introducer self_id introduced) es)

  abbrev differs : Map Bool → Device → Bool
  differs introduced d =
      (d.introducer && not (introducer && not (has d.device_id introduced)))
      || (not d.introducer && (introducer && not (has d.device_id introduced)))
