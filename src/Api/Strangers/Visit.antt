-- ===== src/Api/Strangers/Visit.antt =====
-- internal/peerwire and internal/api together: a connection that a stranger opens, from its frames to
-- what the handlers do.
use we_sync.Base.{Bool, true, false, List, Option, String, ◌is◌, any, ◌≡◌}
use we_sync.Peerwire.Message.{Message}
use we_sync.Peerwire.Inbound.{Rules, cert, read_inbound}
use we_sync.Peerwire.Inbound.Accepted.{is_acceptance, read_inbound-calm}
use we_sync.Api.Backend.{Backend}
use we_sync.Api.App.{App}
use we_sync.Api.NodeEvents.{Wiring, node_callbacks, on_events}
use we_sync.Api.Strangers.{is_stranger}
use we_sync.Api.Strangers.Events.{events-Kept}

-- The rules of a node: its callbacks, and the filter that the discovery's mode sets.
abbrev pub node_rules : Option (String → Bool) → Rules
node_rules filter = record { cb = node_callbacks; accept_filter = filter }

-- What the frames of an inbound connection do to a node.
unfoldable pub visit :
    (b : Backend)
    → Wiring
    → Option (String → Bool)
    → String
    → String
    → String
    → List (Option Message)
    → App b
    → App b
unfolding on_events read_inbound
visit b w filter fp dev remote_ip frames a =
    on_events b w (read_inbound (node_rules filter) (cert fp dev) remote_ip frames) a

-- A device that is not trusted and is in no folder opens a connection with its certificate and sends
-- any frames, of which none says that it accepts a pairing: Syncthing's folders and the trusted devices
-- stay as they were, whatever device IDs the frames claim, if dismissing a pending device leaves the
-- folders.
pub visit-harmless :
    (b : Backend) (w : Wiring) (filter : Option (String → Bool)) (fp dev remote_ip : String)
    (frames : List (Option Message)) (a : App b)
    → ((id : String) (s : b.St)
        → b.list_folders (b.dismiss_pending_device id s).0 ≡ b.list_folders s)
    → (dev is "") ≡ false
    → is_stranger b w.self_id dev a ≡ true
    → any is_acceptance frames ≡ false
    → (b.list_folders (visit b w filter fp dev remote_ip frames a).st ≡ b.list_folders a.st)
      × ((visit b w filter fp dev remote_ip frames a).state.trusted_ids ≡ a.state.trusted_ids)
unfolding visit
visit-harmless b w filter fp dev remote_ip frames a dismissed d h calm =
    events-Kept b dismissed w dev (read_inbound (node_rules filter) (cert fp dev) remote_ip frames)
      a (read_inbound-calm (node_rules filter) fp dev remote_ip frames d calm) h
