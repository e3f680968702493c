-- ===== src/Peerwire/Inbound.antt =====
-- `readInbound` of internal/peerwire/hub.go: what a hub does with the frames of a connection that a
-- peer has opened. A frame that does not decode is none.
pub mod Auth
pub mod Accepted
use we_sync.Base.{
  ◌≡◌, refl, ◌∙◌, not, ◌&&◌, List, [], ◌∷◌, ◌++◌, Bool, true, false, Option, none, some, String,
  if◌then◌else◌, ◌is◌, arith, All, Bool-cases, inl, inr,
}
use we_sync.Peerwire.Message.{
  Message, Callbacks, Event, MsgType, hello, peer_state, accepted, cancelled, folder_offer,
  folder_accept, folder_decline, folder_remove, folder_sync, unknown, emit_if, dispatch,
  dispatch_hello, device_of, verified_as, adopts_addr,
}

-- What the TLS handshake has shown: no TLS, TLS with no certificate, or the fingerprint and the
-- device ID of the certificate.
pub data Tls : Type 0 where
  no_tls no_cert : Tls
  cert : String → String → Tls

-- What the hub has set: its callbacks, and its filter.
pub record Rules : Type 0 where
  pub cb : Callbacks
  pub accept_filter : Option (String → Bool)

abbrev pub is_hello : Message → Bool
is_hello msg = elim msg.kind [
  | hello ↦ true
  | peer_state ↦ false
  | accepted ↦ false
  | cancelled ↦ false
  | folder_offer ↦ false
  | folder_accept ↦ false
  | folder_decline ↦ false
  | folder_remove ↦ false
  | folder_sync ↦ false
  | unknown other ↦ false
]

-- The device ID of the certificate stands in place of the claimed one.
unfoldable pub identified : Tls → Message → Message
identified (cert fp dev) msg = if dev is "" then msg else record msg { device_id = dev }
identified no_tls msg = msg
identified no_cert msg = msg

-- The checks of the first Hello: the fingerprint, then the filter.
unfoldable pub is_pinned : Rules → Tls → Message → Bool
is_pinned r (cert fp dev) msg =
    if fp is ""
    then true
    else if not (msg.cert_fp is "") && not (msg.cert_fp is fp)
    then false
    else (elim r.cb.on_validate_cert_fp [ none ↦ true | some ok ↦ ok msg.device_id fp ])
is_pinned r no_tls msg = true
is_pinned r no_cert msg = true

unfoldable pub passes_filter : Rules → Message → Bool
passes_filter r msg = elim r.accept_filter [ none ↦ true | some ok ↦ ok msg.device_id ]

abbrev pub fp_of : Tls → String
fp_of (cert fp dev) = fp
fp_of no_tls = ""
fp_of no_cert = ""

-- What the first Hello that passes sets off before it is dispatched.
unfoldable pub on_first_hello : Rules → Tls → String → Message → List Event
on_first_hello r tls remote_ip msg =
    emit_if (not (remote_ip is "") && not (msg.device_id is ""))
      (adopts_addr remote_ip msg.device_id)
    ++ emit_if r.cb.on_peer_verified (verified_as msg.device_id (fp_of tls))

-- The loop, with the flag `verified`.
unfoldable pub read_frames : Rules → Tls → String → Bool → List (Option Message) → List Event
unfolding identified is_pinned passes_filter on_first_hello
read_frames r tls remote_ip verified [] = []
read_frames r tls remote_ip verified (none ∷ frames) = read_frames r tls remote_ip verified frames
read_frames r tls remote_ip verified (some claimed ∷ frames) =
    let msg = identified tls claimed in
    let rest = read_frames r tls remote_ip verified frames in
    let rest_verified = read_frames r tls remote_ip true frames in
    if is_hello msg && not verified
    then (if is_pinned r tls msg && passes_filter r msg
        then on_first_hello r tls remote_ip msg ++ (dispatch r.cb msg remote_ip ++ rest_verified)
        else [])
    else dispatch r.cb msg remote_ip ++ rest

unfoldable pub read_inbound : Rules → Tls → String → List (Option Message) → List Event
unfolding read_frames
read_inbound r no_cert remote_ip frames = []
read_inbound r no_tls remote_ip frames = read_frames r no_tls remote_ip false frames
read_inbound r (cert fp dev) remote_ip frames = read_frames r (cert fp dev) remote_ip false frames
