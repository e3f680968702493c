-- ===== src/Api/NodeEvents.antt =====
-- internal/api/handlers.go: `NewHandlers` hands its functions to the wire; here the events of a peer's
-- connection reach the handlers of the node.
use we_sync.Base.{ℕ, ℤ, Bool, true, false, List, [], ◌∷◌, Option, some, String}
use we_sync.Node.Peer.{Ip}
use we_sync.Node.State.{set_peer_cert_fp}
use we_sync.Peerwire.Message.{
  Callbacks, Event, accepted_from, cancelled_from, hello_from, state_from, trusted_from, offer_from,
  accept_from, decline_from, remove_from, sync_from, verified_as, adopts_addr, adopts_key,
}
use we_sync.Api.Backend.{Backend}
use we_sync.Api.App.{App}
use we_sync.Api.Pairing.{on_accepted, on_cancelled, on_trusted, on_hello, on_peer_state, with_state}
use we_sync.Api.FolderMoves.{on_folder_remove, on_folder_accept, on_folder_decline}

-- Which callbacks `NewHandlers` sets.
unfoldable pub node_callbacks : Callbacks
node_callbacks = record {
  on_accepted = true;
  on_cancelled = true;
  on_hello = true;
  on_peer_state = true;
  on_trusted = true;
  on_folder_offer = false;
  on_folder_accept = true;
  on_folder_decline = true;
  on_folder_remove = true;
  on_folder_sync = false;
  on_peer_verified = true;
  on_validate_cert_fp = some (λ _ _. true);
}

-- What a node is started with, and what it asks: the setting of `GetIntroducer`, `net.ParseIP`, how a
-- port of a message is read, and the wire's `PeerAddr`.
pub record Wiring : Type 0 where
  pub self_id : String
  pub introducer : Bool
  pub parse_ip : String → Option Ip
  pub as_port : ℤ → ℕ
  pub peer_addr : String → Option (String × ℕ)

-- The adoptions change the wire's connections alone.
module _ (b : Backend) (w : Wiring) where
  unfoldable pub on_event : Event → App b → App b
  unfolding on_accepted on_cancelled on_hello on_peer_state on_trusted on_folder_accept
      on_folder_decline on_folder_remove
  on_event (accepted_from d) a = on_accepted b w.self_id w.introducer d a
  on_event (cancelled_from d) a = on_cancelled b w.self_id w.introducer (w.peer_addr d) d a
  on_event (hello_from d ip port st_port) a =
      (on_hello b w.self_id w.introducer w.parse_ip d ip (w.as_port port) a).0
  on_event (state_from d name info) a = (on_peer_state b w.self_id w.introducer d name info a).0
  on_event (trusted_from d t) a = on_trusted b w.self_id w.introducer d t a
  on_event (accept_from d folder path) a = on_folder_accept b w.self_id d folder a
  on_event (decline_from d folder) a = on_folder_decline b w.self_id d folder a
  on_event (remove_from d folder target) a = on_folder_remove b w.self_id d folder target a
  on_event (verified_as d fp) a = with_state a (set_peer_cert_fp a.state d fp)
  on_event (offer_from d folder label kind) a = a
  on_event (sync_from d folders) a = a
  on_event (adopts_addr ip d) a = a
  on_event (adopts_key key d) a = a

  unfoldable pub on_events : List Event → App b → App b
  unfolding on_event
  on_events [] a = a
  on_events (e ∷ es) a = on_events es (on_event e a)
