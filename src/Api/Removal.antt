-- ===== src/Api/Removal.antt =====
-- internal/api: trust at the start (handlers.go), and the removal of a device (pairing.go).
use we_sync.Base.{
  Bool, true, false, not, ◌&&◌, ◌||◌, List, [], ◌∷◌, some, String, if◌then◌else◌, ◌is◌, any,
  or_else, ◌≡◌, refl, ap, ◌∙◌, arith, is_self, Bool-cases, inl, inr, has, has-insert, has-delete,
  lookup,
}
use we_sync.Node.State.{
  State, is_trusted, is_explicitly_removed, trust, untrust, set_peer_name_if_empty, new,
}
use we_sync.Syncthing.{Folder, Device}
use we_sync.Api.Backend.{Backend, IsDocumented, IsUp}
use we_sync.Api.App.{
  App, FolderWithDevices, has_id, list_folders, notify, schedule_push, remove_device_from_folder,
  remove_device_from_each, remove_device_from_all_folders, untrust_device, trust_each, name_each,
  new_handlers,
}
use we_sync.Api.Pairing.{delete_device}
use we_sync.Api.Unpair.{shares, remove_from_all_lem}

set_peer_name-trusted :
    (s : State) (id name e : String)
    → is_trusted (set_peer_name_if_empty s id name) e ≡ is_trusted s e
unfolding set_peer_name_if_empty is_trusted
set_peer_name-trusted s id name e = ground arith

trust-trusted :
    (s : State) (id e : String)
    → is_trusted (trust s id) e ≡ (if id is e then true else is_trusted s e)
unfolding trust is_trusted
trust-trusted s id e = has-insert e id true s.trusted_ids

abbrev pub is_configured : String → List Device → String → Bool
is_configured self_id ds e = any (λ d. (d.device_id is e) && not (d.device_id is self_id)) ds

module _ (b : Backend) where
  name_each-trusted :
      (ds : List Device) (s : State) (e : String) → is_trusted (name_each b ds s) e ≡ is_trusted s e
  unfolding name_each
  name_each-trusted [] s e = refl
  name_each-trusted (d ∷ ds) s e =
      name_each-trusted ds (set_peer_name_if_empty s d.device_id d.name) e
      ∙ set_peer_name-trusted s d.device_id d.name e

  trust_each-trusted :
      (self_id : String) (ds : List Device) (s : State) (e : String)
      → is_trusted (trust_each b self_id ds s) e ≡ (is_configured self_id ds e || is_trusted s e)
  unfolding trust_each
  trust_each-trusted self_id [] s e = refl
  trust_each-trusted self_id (d ∷ ds) s e = ground (
    arith,
    trust_each-trusted self_id ds s e,
    trust_each-trusted self_id ds (trust s d.device_id) e,
    trust-trusted s d.device_id e,
  )

  remove-state :
      (f d : String) (a : App b)
      → ((remove_device_from_folder b f d a).state ≡ a.state)
        × ((remove_device_from_folder b f d a).sent ≡ a.sent)
  unfolding remove_device_from_folder
  remove-state f d a = ground arith

  each-state :
      (d : String) (fs : List FolderWithDevices) (a : App b)
      → ((remove_device_from_each b d fs a).state ≡ a.state)
        × ((remove_device_from_each b d fs a).sent ≡ a.sent)
  unfolding remove_device_from_each
  each-state d [] a = (refl, refl)
  each-state d (f ∷ fs) a = elim (Bool-cases (has_id d f.device_ids)) [
    | inl e ↦
        let (p, q) = each-state d fs (remove_device_from_folder b f.id d a) in
        let (r, s) = remove-state f.id d a in rw (e, remove_device_from_each) (p ∙ r, q ∙ s)
    | inr e ↦ rw (e, remove_device_from_each) (each-state d fs a)
  ]

-- At the start, a node trusts exactly the devices that Syncthing has configured, itself not
-- included, and nobody if Syncthing does not answer.
pub new_handlers-trusted :
    (b : Backend) (self_id name : String) (st : b.St) (e : String)
    → is_trusted (new_handlers b self_id name st).state e
      ≡ is_configured self_id (or_else [] (b.list_devices st)) e
unfolding new_handlers is_trusted new has lookup
new_handlers-trusted b self_id name st e =
    name_each-trusted b (or_else [] (b.list_devices st))
      (trust_each b self_id (or_else [] (b.list_devices st)) (record new { name = name })) e
    ∙ trust_each-trusted b self_id (or_else [] (b.list_devices st)) (record new { name = name }) e
    ∙ nobody (is_configured self_id (or_else [] (b.list_devices st)) e)
  where
    nobody : (x : Bool) → (x || false) ≡ x
    nobody x = ground arith

-- `DELETE /api/devices` of another device: it is no longer trusted and is marked as removed; and if
-- Syncthing lists its folders once the device is gone from it and its updates meet no error, it
-- then lists folders of which none has the device.
pub delete_device-gone :
    (b : Backend)
    → IsDocumented b
    → IsUp b
    → (self_id : String) (introducer : Bool) (d : String) (a : App b) (fs : List Folder)
    → (d is "") ≡ false
    → (d is self_id) ≡ false
    → b.list_folders (b.remove_device d a.st).0 ≡ some fs
    → (is_trusted (delete_device b self_id introducer d a).0.state d ≡ false)
      × ((is_explicitly_removed (delete_device b self_id introducer d a).0.state d ≡ true)
          × ((gs : List Folder) × ((b.list_folders (delete_device b self_id introducer d a).0.st
                  ≡ some gs)
                × (any (shares d) gs ≡ false))))
unfolding delete_device schedule_push notify
delete_device-gone b doc up self_id introducer d a fs e ne l =
    rw (e, delete_device)
      (
        ap (λ s. is_trusted s d) (kept (untrust_device b d a)) ∙ untrusted.0,
        (
          ap (λ s. is_explicitly_removed s d) (kept (untrust_device b d a)) ∙ untrusted.1,
          remove_from_all_lem b doc up self_id d (untrust_device b d a) fs ne (same_st ∙ l),
        ),
      )
  where
    kept : (c : App b) → (remove_device_from_all_folders b self_id d c).state ≡ c.state
    kept c =
        unfold remove_device_from_all_folders in (each-state b d (list_folders b self_id c) c).0

    same_st : b.list_folders (untrust_device b d a).st ≡ b.list_folders (b.remove_device d a.st).0
    same_st = unfold untrust_device notify in refl

    untrusted :
        (is_trusted (untrust_device b d a).state d ≡ false)
        × (is_explicitly_removed (untrust_device b d a).state d ≡ true)
    untrusted =
        unfold untrust_device notify untrust is_trusted is_explicitly_removed in
        (
          has-delete d d a.state.trusted_ids
              ∙ ap (λ t. if t then false else has d a.state.trusted_ids) (is_self d),
          has-insert d d true a.state.explicitly_removed
              ∙ ap (λ t. if t then true else has d a.state.explicitly_removed) (is_self d),
        )
