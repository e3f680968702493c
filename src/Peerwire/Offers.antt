-- ===== src/Peerwire/Offers.antt =====
-- The queue of folder offers of internal/peerwire/hub.go, and the Hello of internal/peerwire/conn.go
-- that flushes it. A slice is a value here: `CancelOffer` compacts the old slice in place, which only
-- a reader without the lock could see.
pub mod Queue
use we_sync.Base.{
  List, [], ◌∷◌, ◌++◌, Bool, Option, none, some, String, Map, lookup, insert, delete, or_else,
  if◌then◌else◌, ◌is◌, ℤ, pos,
}
use we_sync.Node.Peer.{DeviceInfo}
use we_sync.Peerwire.Message.{Message, hello, folder_sync}

-- `pendingOffers`: the messages to deliver to a device on the next connection.
abbrev pub Pending : Type 0
Pending = Map (List Message)

abbrev pub offers : Pending → String → List Message
offers p dev = or_else [] (lookup dev p)

-- An offer of the same folder is replaced in place.
unfoldable pub queue_in : Message → List Message → List Message
queue_in msg [] = msg ∷ []
queue_in msg (m ∷ ms) = if m.folder_id is msg.folder_id then msg ∷ ms else m ∷ queue_in msg ms

unfoldable pub queue_offer : Pending → String → Message → Pending
unfolding queue_in
queue_offer p dev msg = insert dev (queue_in msg (offers p dev)) p

unfoldable pub drain_offers : Pending → String → Pending × List Message
drain_offers p dev = (delete dev p, offers p dev)

unfoldable pub folder_ids_of : List Message → List String
folder_ids_of [] = []
folder_ids_of (m ∷ ms) =
    if m.folder_id is "" then folder_ids_of ms else m.folder_id ∷ folder_ids_of ms

unfoldable pub pending_folder_ids : Pending → String → List String
unfolding folder_ids_of
pending_folder_ids p dev = folder_ids_of (offers p dev)

unfoldable pub kept_of : String → List Message → List Message
kept_of fid [] = []
kept_of fid (m ∷ ms) = if m.folder_id is fid then kept_of fid ms else m ∷ kept_of fid ms

unfoldable pub cancel_offer : Pending → String → String → Pending
unfolding kept_of
cancel_offer p dev fid = elim (kept_of fid (offers p dev)) [
  | [] ↦ delete dev p
  | m ∷ ms ↦ insert dev (m ∷ ms) p
]

-- What the hub tells of itself.
pub record Self : Type 0 where
  pub self_id : String
  pub self_port : ℤ
  pub self_st_port : ℤ
  pub self_cert_fp : String
  pub self_name : String
  pub self_info : DeviceInfo

abbrev pub no_message : Message
no_message = record {
  kind = hello;
  device_id = "";
  port = pos 0;
  name = "";
  st_port = pos 0;
  info = none;
  cert_fp = "";
  trusted = none;
  folder_id = "";
  folder_label = "";
  folder_path = "";
  folder_type = "";
  folder_ids = [];
  target_device_id = "";
}

unfoldable pub hello_message : Self → Option Bool → Message
hello_message s trusted = record no_message {
  device_id = if s.self_cert_fp is "" then s.self_id else "";
  port = s.self_port;
  st_port = s.self_st_port;
  cert_fp = s.self_cert_fp;
  name = s.self_name;
  info = some s.self_info;
  trusted = trusted;
}

-- `sendHello`: the messages that it writes, in their order, and the offers that are left. `trusted`
-- is the trust that the Hello tells.
unfoldable pub send_hello : Self → Pending → String → Option Bool → Pending × List Message
unfolding hello_message pending_folder_ids drain_offers
send_hello s p key trusted =
    let (p', msgs) = drain_offers p key in
    let sync : List Message = elim (pending_folder_ids p key) [
      | [] ↦ []
      | id ∷ ids ↦
          record no_message { kind = folder_sync; device_id = s.self_id; folder_ids = id ∷ ids }
          ∷ []
    ] in
    (p', hello_message s trusted ∷ (sync ++ msgs))
