-- ===== src/Api/Strangers/Events.antt =====
-- What the handlers leave alone when a stranger's events reach them.
use we_sync.Base.{
  ℕ, Bool, true, false, not, ◌&&◌, ◌||◌, List, [], ◌∷◌, Option, none, some, String, ◌is◌, ◌≡◌, refl,
  ap, ◌∙◌, sym, subst, arith, All, Bool-cases, inl, inr, has,
}
use we_sync.Node.Peer.{DeviceInfo}
use we_sync.Node.State.{
  is_trusted, set_they_trust_us, set_peer_name_info, set_wire_accepted, set_peer_cert_fp,
  on_peer_trust_signal,
}
use we_sync.Peerwire.Message.{
  Event, accepted_from, cancelled_from, hello_from, state_from, trusted_from, offer_from,
  accept_from, decline_from, remove_from, sync_from, verified_as, adopts_addr, adopts_key,
  device_of,
}
use we_sync.Api.Backend.{Backend}
use we_sync.Api.App.{App, notify, list_folders, remove_device_from_all_folders, schedule_push}
use we_sync.Api.Pairing.{
  device_display_name, end_trust, known_at, reassert, dismiss, cascade, on_outcome, on_cancelled,
  on_trusted, on_hello, on_peer_state, with_state, notify_removal,
}
use we_sync.Api.FolderMoves.{on_folder_remove, on_folder_accept, on_folder_decline}
use we_sync.Api.NodeEvents.{Wiring, on_event, on_events}
use we_sync.Api.Strangers.{
  Kept, Kept-trans, is_stranger, is_stranger-same, remove_from_all-stranger, stranger-may_change,
  notify_removal-Kept, merge_peer-trusted_ids, add_peer_if_absent-trusted_ids,
}
use we_sync.Peerwire.Inbound.Accepted.{is_accepted}

module _ (b : Backend) where
  -- Dismissing a pending device leaves Syncthing's folders.
  module _
      (dismissed : (id : String) (s : b.St)
        → b.list_folders (b.dismiss_pending_device id s).0 ≡ b.list_folders s)
      (w : Wiring) where
    first_of : (x y : Bool) → (not x && not y) ≡ true → x ≡ false
    first_of x y h = ground (arith, h)

    end_trust-Kept :
        (d : String) (a : App b)
        → is_stranger b w.self_id d a ≡ true
        → Kept b a (end_trust b w.self_id w.introducer d a)
    unfolding end_trust set_they_trust_us
    end_trust-Kept d a h = rw (first_of (is_trusted a.state d) _ h, end_trust) (refl, refl)

    known_at-Kept :
        (d name : String) (addr : Option (String × ℕ)) (a : App b)
        → Kept b a (known_at b w.self_id w.introducer d name addr a)
    unfolding known_at
    known_at-Kept d name none a = (refl, refl)
    known_at-Kept d name (some (ip, port)) a = (refl, add_peer_if_absent-trusted_ids a.state _)

    cancelled-Kept :
        (d : String) (addr : Option (String × ℕ)) (a : App b)
        → is_stranger b w.self_id d a ≡ true
        → Kept b a (on_cancelled b w.self_id w.introducer addr d a)
    cancelled-Kept d addr a h =
        let name = device_display_name a.state d in
        let told : App b = end_trust b w.self_id w.introducer d a in
        let left : App b = record told { st = (b.dismiss_pending_device d told.st).0 } in
        let left_kept =
          Kept-trans b a told left (end_trust-Kept d a h) (dismissed d told.st, refl) in
        let removed : App b = remove_device_from_all_folders b w.self_id d left in
        let same =
          remove_from_all-stranger b w.self_id d left
            (is_stranger-same b w.self_id d a left left_kept ∙ h) in
        let known : App b = known_at b w.self_id w.introducer d name addr removed in
        let ended : App b =
          notify_removal b w.self_id w.introducer d (list_folders b w.self_id known) known in
        unfold on_cancelled schedule_push in
        Kept-trans b a removed ended (subst (Kept b a) (sym same) left_kept) (
          Kept-trans b removed known ended (known_at-Kept d name addr removed)
            (notify_removal-Kept b w.self_id d w.introducer (list_folders b w.self_id known) known))

    reassert-Kept :
        (v : Bool) (d : String) (a : App b) → Kept b a (reassert b w.self_id w.introducer v d a)
    unfolding reassert notify
    reassert-Kept true d a = (refl, refl)
    reassert-Kept false d a = (refl, refl)

    dismiss-Kept :
        (v : Bool) (d : String) (a : App b) → Kept b a (dismiss b w.self_id w.introducer v d a)
    unfolding dismiss
    dismiss-Kept true d a = (dismissed d a.st, refl)
    dismiss-Kept false d a = (refl, refl)

    answered-Kept :
        (d : String) (t : Bool) (a : App b)
        → has d a.state.trusted_ids ≡ false
        → Kept b a (on_outcome b w.self_id w.introducer d (on_peer_trust_signal a.state d t) a)
    unfolding on_outcome on_peer_trust_signal schedule_push cascade dismiss reassert
    answered-Kept d true a h =
        let told = with_state a (on_peer_trust_signal a.state d true).0 in
        reassert-Kept (has d a.state.explicitly_removed) d told
    answered-Kept d false a h = elim (Bool-cases (has d a.state.they_trust_us)) [
      | inl e ↦ rw (e, h, on_outcome) (dismissed d a.st, refl)
      | inr e ↦ rw (e, on_outcome) (refl, refl)
    ]

    trusted-Kept :
        (d : String) (t : Bool) (a : App b)
        → is_stranger b w.self_id d a ≡ true
        → Kept b a (on_trusted b w.self_id w.introducer d t a)
    unfolding on_trusted is_trusted
    trusted-Kept d t a h = elim (Bool-cases ((d is "") || (d is w.self_id))) [
      | inl e ↦ rw (e, on_trusted) (refl, refl)
      | inr e ↦ rw (e, on_trusted) (answered-Kept d t a (first_of (is_trusted a.state d) _ h))
    ]

    hello-Kept :
        (d ip : String) (port : ℕ) (a : App b)
        → Kept b a (on_hello b w.self_id w.introducer w.parse_ip d ip port a).0
    unfolding on_hello schedule_push
    hello-Kept d ip port a = elim (Bool-cases (d is w.self_id)) [
      | inl e ↦ rw (e, on_hello) (refl, refl)
      | inr e ↦ rw (e, on_hello) (refl, merge_peer-trusted_ids w.parse_ip a.state d "" ip port none)
    ]

    peer_state-Kept :
        (d name : String) (info : Option DeviceInfo) (a : App b)
        → Kept b a (on_peer_state b w.self_id w.introducer d name info a).0
    unfolding on_peer_state schedule_push set_peer_name_info
    peer_state-Kept d name info a = elim (Bool-cases (d is w.self_id)) [
      | inl e ↦ rw (e, on_peer_state) (refl, refl)
      | inr e ↦ rw (e, on_peer_state) (refl, refl)
    ]

    accept-Kept :
        (d folder : String) (a : App b) → Kept b a (on_folder_accept b w.self_id d folder a)
    unfolding on_folder_accept schedule_push set_wire_accepted
    accept-Kept d folder a = elim (Bool-cases ((d is "") || (d is w.self_id))) [
      | inl e ↦ rw (e, on_folder_accept) (refl, refl)
      | inr e ↦ rw (e, on_folder_accept) (refl, refl)
    ]

    -- Any event of a stranger but its word that it accepts a pairing.
    event-Kept :
        (e : Event) (a : App b)
        → is_accepted e ≡ false
        → is_stranger b w.self_id (device_of e) a ≡ true
        → Kept b a (on_event b w e a)
    unfolding on_event on_folder_remove on_folder_decline set_peer_cert_fp
    event-Kept (accepted_from d) a n h = ground (arith, n)
    event-Kept (cancelled_from d) a n h = cancelled-Kept d (w.peer_addr d) a h
    event-Kept (hello_from d ip port st_port) a n h = hello-Kept d ip (w.as_port port) a
    event-Kept (state_from d name info) a n h = peer_state-Kept d name info a
    event-Kept (trusted_from d t) a n h = trusted-Kept d t a h
    event-Kept (accept_from d folder path) a n h = accept-Kept d folder a
    event-Kept (decline_from d folder) a n h =
        rw (stranger-may_change b w.self_id d folder a h, on_folder_decline) (refl, refl)
    event-Kept (remove_from d folder target) a n h =
        rw (stranger-may_change b w.self_id d folder a h, on_folder_remove) (refl, refl)
    event-Kept (verified_as d fp) a n h = (refl, refl)
    event-Kept (offer_from d folder label kind) a n h = (refl, refl)
    event-Kept (sync_from d folders) a n h = (refl, refl)
    event-Kept (adopts_addr ip d) a n h = (refl, refl)
    event-Kept (adopts_key key d) a n h = (refl, refl)

    pub events-Kept :
        (d : String) (es : List Event) (a : App b)
        → All (λ e. (device_of e ≡ d) × (is_accepted e ≡ false)) es
        → is_stranger b w.self_id d a ≡ true
        → Kept b a (on_events b w es a)
    unfolding on_events
    events-Kept d [] a v h = (refl, refl)
    events-Kept d (e ∷ es) a ((same, n), v) h =
        let now = on_event b w e a in
        let kept = event-Kept e a n (ap (λ x. is_stranger b w.self_id x a) same ∙ h) in
        Kept-trans b a now (on_events b w es now) kept
          (events-Kept d es now v (is_stranger-same b w.self_id d a now kept ∙ h))
