-- ===== src/Api/Strangers.antt =====
-- internal/api: a peer that the node does not know: not trusted, and in no folder.
pub mod Events
pub mod Visit
use we_sync.Base.{
  ℕ, Bool, true, false, not, ◌&&◌, ◌||◌, List, [], ◌∷◌, map, Option, none, some, String,
  if◌then◌else◌, ◌is◌, any, ◌≡◌, refl, ap, ◌∙◌, sym, subst, arith, All, Bool-cases, inl, inr, has,
  lookup, insert, delete, Option-cases, ◌==◌,
}
use we_sync.Node.Peer.{DeviceInfo, Ip, Peer, zero_peer}
use we_sync.Node.State.{
  State, is_trusted, set_they_trust_us, add_peer_if_absent, merge_peer, set_peer_name_info,
  set_wire_accepted, set_peer_cert_fp, on_peer_trust_signal,
}
use we_sync.Peerwire.Message.{
  Message, MsgType, Event, accepted_from, cancelled_from, hello_from, state_from, trusted_from,
  offer_from, accept_from, decline_from, remove_from, sync_from, verified_as, adopts_addr,
  adopts_key, device_of,
}
use we_sync.Api.Backend.{Backend}
use we_sync.Api.App.{
  App, Notice, folder_remove, notify, notify_each, FolderWithDevices, folder_with_devices, has_id,
  list_folders, is_folder_participant, remove_device_from_each, remove_device_from_all_folders,
  schedule_push,
}
use we_sync.Api.Pairing.{
  device_display_name, end_trust, known_at, reassert, dismiss, cascade, on_outcome, on_cancelled,
  on_trusted, on_hello, on_peer_state, with_state, notify_removal,
}
use we_sync.Api.FolderMoves.{may_change, on_folder_remove, on_folder_accept, on_folder_decline}
use we_sync.Api.NodeEvents.{Wiring, on_event, on_events}

any-and :
    {A : Type 0} (p q : A → Bool) (xs : List A)
    → any q xs ≡ false
    → any (λ x. p x && q x) xs ≡ false
any-and p q [] h = refl
any-and p q (x ∷ xs) h = ground (arith, h, any-and p q xs)

pub merge_peer-trusted_ids :
    (parse_ip : String → Option Ip) (s : State) (id name addr : String) (port : ℕ)
    (info : Option DeviceInfo)
    → (merge_peer parse_ip s id name addr port info).trusted_ids ≡ s.trusted_ids
unfolding merge_peer
merge_peer-trusted_ids parse_ip s id name addr port info = ground arith

pub add_peer_if_absent-trusted_ids :
    (s : State) (p : Peer) → (add_peer_if_absent s p).trusted_ids ≡ s.trusted_ids
unfolding add_peer_if_absent
add_peer_if_absent-trusted_ids s p = ground arith

module _ (b : Backend) where
  -- The folders of Syncthing and the trusted devices are the same.
  abbrev pub Kept : App b → App b → Type 0
  Kept a c =
      (b.list_folders c.st ≡ b.list_folders a.st) × (c.state.trusted_ids ≡ a.state.trusted_ids)

  pub Kept-trans : (a c e : App b) → Kept a c → Kept c e → Kept a e
  Kept-trans a c e (p, q) (p', q') = (p' ∙ p, q' ∙ q)

  -- Trusted neither, and a participant of no folder.
  abbrev pub is_stranger : String → String → App b → Bool
  is_stranger self_id d a =
      not (is_trusted a.state d)
      && not (any (λ f. has_id d f.device_ids) (list_folders b self_id a))

  list_folders-same :
      (self_id : String) (a c : App b)
      → Kept a c
      → list_folders b self_id c ≡ list_folders b self_id a
  unfolding list_folders
  list_folders-same self_id a c (p, q) =
      ap
        (λ o. elim o as (λ _. List FolderWithDevices) [
          | none ↦ []
          | some fs ↦ map (folder_with_devices self_id) fs
        ])
        p

  pub is_stranger-same :
      (self_id d : String) (a c : App b)
      → Kept a c
      → is_stranger self_id d c ≡ is_stranger self_id d a
  unfolding is_trusted
  is_stranger-same self_id d a c (p, q) =
      ap (λ t. not (has d t) && not (any (λ f. has_id d f.device_ids) (list_folders b self_id c))) q
      ∙ ap (λ l. not (has d a.state.trusted_ids) && not (any (λ f. has_id d f.device_ids) l))
          (list_folders-same self_id a c (p, q))

  pub notify_each-Kept :
      (ids : List String) (n : Notice) (a : App b) → Kept a (notify_each b ids n a)
  unfolding notify_each
  notify_each-Kept [] n a = (refl, refl)
  notify_each-Kept (id ∷ ids) n a =
      unfold notify notify_each in notify_each-Kept ids n (notify b id n a)

  -- A stranger is in no folder, so nothing is taken from one.
  remove_device_from_each-stranger :
      (d : String) (fs : List FolderWithDevices) (a : App b)
      → any (λ f. has_id d f.device_ids) fs ≡ false
      → remove_device_from_each b d fs a ≡ a
  unfolding remove_device_from_each
  remove_device_from_each-stranger d [] a h = refl
  remove_device_from_each-stranger d (f ∷ fs) a h = elim (Bool-cases (has_id d f.device_ids)) [
    | inl e ↦ ground (arith, e, h)
    | inr e ↦
        rw (e, remove_device_from_each)
          (remove_device_from_each-stranger d fs a (rest_of (has_id d f.device_ids) _ h))
  ]
    where
      rest_of : (x y : Bool) → (x || y) ≡ false → y ≡ false
      rest_of x y h = ground (arith, h)

  pub remove_from_all-stranger :
      (self_id d : String) (a : App b)
      → is_stranger self_id d a ≡ true
      → remove_device_from_all_folders b self_id d a ≡ a
  unfolding remove_device_from_all_folders
  remove_from_all-stranger self_id d a h =
      remove_device_from_each-stranger d (list_folders b self_id a) a
        (second_of (is_trusted a.state d) _ h)
    where
      second_of : (x y : Bool) → (not x && not y) ≡ true → y ≡ false
      second_of x y h = ground (arith, h)

  pub stranger-may_change :
      (self_id d folder : String) (a : App b)
      → is_stranger self_id d a ≡ true
      → may_change b self_id d folder a ≡ false
  unfolding may_change is_folder_participant
  stranger-may_change self_id d folder a h =
      both_of (is_trusted a.state d) (any (λ f. has_id d f.device_ids) (list_folders b self_id a)) _
        h (any-and (λ f. f.id is folder) (λ f. has_id d f.device_ids) (list_folders b self_id a))
    where
      both_of :
          (x y z : Bool) → (not x && not y) ≡ true → (y ≡ false → z ≡ false) → (x || z) ≡ false
      both_of true y z h f = ground (arith, h)
      both_of false true z h f = ground (arith, h)
      both_of false false z h f = f refl

  pub notify_removal-Kept :
      (self_id from : String) (introducer : Bool) (fs : List FolderWithDevices) (a : App b)
      → Kept a (notify_removal b self_id introducer from fs a)
  unfolding notify_removal
  notify_removal-Kept self_id from introducer [] a = (refl, refl)
  notify_removal-Kept self_id from introducer (f ∷ fs) a =
      let told : App b = notify_each b f.device_ids (folder_remove f.id from) a in
      Kept-trans a told (notify_removal b self_id introducer from fs told)
        (notify_each-Kept f.device_ids (folder_remove f.id from) a)
        (notify_removal-Kept self_id from introducer fs told)
