-- ===== src/Api/Pairing.antt =====
-- internal/api/pairing.go, peers.go and pipeline.go: pairing and what follows from a peer's word.
use we_sync.Base.{
  ℕ, Bool, true, false, not, ◌&&◌, ◌||◌, List, [], ◌∷◌, Option, none, some, String, Map, lookup,
  insert, if◌then◌else◌, ◌is◌, ◌==◌, or_else, has,
}
use we_sync.Node.Peer.{DeviceInfo, zero_peer, Ip, is_routable_addr}
use we_sync.Node.State.{
  State, is_trusted, set_they_trust_us, add_peer_if_absent, on_peer_trust_signal,
  TrustSignalOutcome, reconcile_trust, DeviceName, short_id, merge_peer, set_peer_name_info,
}
use we_sync.Syncthing.{Folder, FolderDevice, Device}
use we_sync.Api.Backend.{Backend}
use we_sync.Api.App.{
  App, not_trusted, greeting, cancelled, folder_remove, FolderWithDevices, schedule_push, notify,
  notify_each, list_folders, remove_device_from_all_folders, trust_device, untrust_device,
}

-- The status of an answer.
pub data Status : Type 0 where
  success no_content bad_request forbidden not_found conflict bad_gateway server_error : Status

unfoldable pub device_display_name : State → String → String
device_display_name s id =
    let name = (or_else zero_peer (lookup id s.peers)).name in
    if not (name is "") then name else short_id id

abbrev pub with_state : {b : Backend} → App b → State → App b
with_state a s = record a { state = s }

-- What a node is started with: its ID, and the setting of `GetIntroducer`.
module _ (b : Backend) (self_id : String) (introducer : Bool) where
  unfoldable pub on_accepted : String → App b → App b
  unfolding trust_device schedule_push
  on_accepted from a =
      if is_trusted a.state from
      then schedule_push b a
      else schedule_push b (trust_device b introducer from (device_display_name a.state from) a)

  -- The loop at the end of `onCancelled`.
  unfoldable pub notify_removal : String → List FolderWithDevices → App b → App b
  unfolding notify_each
  notify_removal from [] a = a
  notify_removal from (f ∷ fs) a =
      notify_removal from fs (notify_each b f.device_ids (folder_remove f.id from) a)

  -- `onCancelled`: first the trust, and the peer that stays to be discovered.
  unfoldable pub end_trust : String → App b → App b
  unfolding untrust_device
  end_trust from a =
      if is_trusted a.state from
      then untrust_device b from a
      else with_state a (set_they_trust_us a.state from false)

  unfoldable pub known_at : String → String → Option (String × ℕ) → App b → App b
  known_at id name none a = a
  known_at id name (some (addr, port)) a = with_state a (
      add_peer_if_absent a.state
        (record zero_peer { device_id = id; name = name; addr = addr; port = port }))

  -- `peer_addr` is the answer of `PeerAddr`.
  unfoldable pub on_cancelled : Option (String × ℕ) → String → App b → App b
  unfolding end_trust known_at remove_device_from_all_folders notify_removal schedule_push
      list_folders
  on_cancelled peer_addr from a =
      let told : App b = end_trust from a in
      let dismissed : App b = record told { st = (b.dismiss_pending_device from told.st).0 } in
      let known : App b =
        known_at from (device_display_name a.state from) peer_addr
          (remove_device_from_all_folders b self_id from dismissed) in
      schedule_push b (notify_removal from (list_folders b self_id known) known)

  unfoldable pub pair : Option (String × String) → App b → App b × Status
  unfolding trust_device notify schedule_push
  pair none a = (a, bad_request)
  pair (some (device, name)) a =
      if device is ""
      then (a, bad_request)
      else (if is_trusted a.state device then (schedule_push b a, no_content) else (
        schedule_push b (notify b device greeting (trust_device b introducer device name a)),
        no_content,
      ))

  -- `DELETE /api/incoming`.
  unfoldable pub dismiss_incoming : String → App b → App b × Status
  unfolding schedule_push
  dismiss_incoming id a = if id is "" then (a, bad_request) else (
    schedule_push b (record a {
      st = (b.dismiss_pending_device id a.st).0;
      state = set_they_trust_us a.state id false;
    }),
    no_content,
  )

  -- `DELETE /api/devices`.
  unfoldable pub delete_device : String → App b → App b × Status
  unfolding untrust_device remove_device_from_all_folders notify schedule_push
  delete_device id a = if id is "" then (a, bad_request) else (
    schedule_push b
        (record (notify b id cancelled
          (remove_device_from_all_folders b self_id id (untrust_device b id a))) {
            greets_all = true;
          }),
    no_content,
  )

  -- What `onTrusted` does about the outcome of a signal.
  unfoldable pub reassert : Bool → String → App b → App b
  unfolding notify
  reassert true from a = notify b from not_trusted a
  reassert false from a = a

  unfoldable pub dismiss : Bool → String → App b → App b
  dismiss true from a = record a { st = (b.dismiss_pending_device from a.st).0 }
  dismiss false from a = a

  unfoldable pub cascade : Bool → String → App b → App b
  unfolding untrust_device
  cascade true from a = untrust_device b from a
  cascade false from a = a

  unfoldable pub on_outcome : String → State × TrustSignalOutcome → App b → App b
  unfolding reassert dismiss cascade schedule_push
  on_outcome from (s, out) a = schedule_push b (
      cascade out.cascade_untrust from
        (dismiss out.dismiss_pending from (reassert out.reassert_removal from (with_state a s))))

  unfoldable pub on_trusted : String → Bool → App b → App b
  unfolding on_outcome
  on_trusted from trusted a =
      if (from is "") || (from is self_id)
      then a
      else on_outcome from (on_peer_trust_signal a.state from trusted) a

  -- The state after `onHello`; it also lets the wire connect to a routable address.
  unfoldable pub on_hello : (String → Option Ip) → String → String → ℕ → App b → App b × Bool
  unfolding schedule_push
  on_hello parse_ip from addr port a = if from is self_id then (a, false) else (
    schedule_push b (with_state a (merge_peer parse_ip a.state from "" addr port none)),
    not (addr is "") && not (port == 0) && is_routable_addr parse_ip addr,
  )

  -- and after `onPeerState`, with whether the name goes on to Syncthing.
  unfoldable pub on_peer_state : String → String → Option DeviceInfo → App b → App b × Bool
  unfolding schedule_push
  on_peer_state from name info a =
      if from is self_id
      then (a, false)
      else (let s = set_peer_name_info a.state from name info in
          (schedule_push b (with_state a s), not (name is "") && is_trusted s from))

  -- `introduced` in `updateTrust`.
  unfoldable pub introduced_by : List FolderDevice → Map Bool → Map Bool
  introduced_by [] m = m
  introduced_by (d ∷ ds) m =
      introduced_by ds (if not (d.introduced_by is "") then insert d.device_id true m else m)

  unfoldable pub introduced_in : List Folder → Map Bool → Map Bool
  unfolding introduced_by
  introduced_in [] m = m
  introduced_in (f ∷ fs) m = introduced_in fs (introduced_by f.devices m)

  -- The loop that keeps the flags.
  unfoldable pub flag_each : Map Bool → List Device → b.St → b.St
  flag_each introduced [] s = s
  flag_each introduced (d ∷ ds) s =
      let want = introducer && not (has d.device_id introduced) in
      let flag : b.St = (b.update_device_introducer d.device_id want s).0 in
      flag_each introduced ds (
        if d.device_id is self_id
        then s
        else (if (d.introducer && not want) || (not d.introducer && want) then flag else s))

  unfoldable pub remove_each : List String → App b → App b
  unfolding remove_device_from_all_folders
  remove_each [] a = a
  remove_each (id ∷ ids) a = remove_each ids (remove_device_from_all_folders b self_id id a)

  abbrev pub device_names : List Device → List DeviceName
  device_names [] = []
  device_names (d ∷ ds) = record { id = d.device_id; name = d.name } ∷ device_names ds

  -- `ReconcileTrust`, and the removals that it asks for.
  unfoldable pub reconcile : List Device → Map Bool → b.St → App b → App b
  unfolding remove_each
  reconcile devices introduced st a =
      let (s, gone) = reconcile_trust a.state (device_names devices) introduced self_id in
      remove_each gone (record a { st = st; state = s })

  -- `updateTrust`, once the devices are listed.
  unfoldable pub update_trust_of : List Device → Option (List Folder) → App b → App b
  unfolding introduced_in flag_each reconcile
  update_trust_of devices none a = reconcile devices [] a.st a
  update_trust_of devices (some fs) a =
      let introduced = introduced_in fs [] in
      let flags : b.St = flag_each introduced devices a.st in reconcile devices introduced flags a

  unfoldable pub update_trust : App b → App b
  unfolding update_trust_of
  update_trust a = elim (b.list_devices a.st) [
    | none ↦ a
    | some devices ↦ update_trust_of devices (b.list_folders a.st) a
  ]

  -- `pipeline`, whose other steps are the parameter `update_folders`; it is queued again later if
  -- Syncthing does not answer.
  unfoldable pub pipeline : (App b → App b) → App b → App b
  unfolding update_trust
  pipeline update_folders a = elim (b.list_devices a.st) [
    | none ↦ record a { pipeline_queued = true }
    | some devices ↦ update_folders (update_trust a)
  ]
