-- ===== src/Peerwire/Message.antt =====
-- internal/peerwire/message.go, and `dispatch` of internal/peerwire/hub.go. What a hub does on behalf
-- of a peer is a list of events: the calls of its callbacks, and the adoptions of its connections.
use we_sync.Base.{
  refl, ◌≡◌, All, append-All, true, false, not, List, [], ◌∷◌, ◌++◌, Bool, Option, none, some,
  String, ℤ, if◌then◌else◌, ◌is◌, ◌&&◌,
}
use we_sync.Node.Peer.{DeviceInfo}

pub data MsgType : Type 0 where
  hello peer_state accepted cancelled : MsgType
  folder_offer folder_accept folder_decline folder_remove folder_sync : MsgType
  unknown : String → MsgType

pub record Message : Type 0 where
  pub kind : MsgType  -- `Type`
  pub device_id : String
  pub port : ℤ
  pub name : String
  pub st_port : ℤ
  pub info : Option DeviceInfo
  pub cert_fp : String
  pub trusted : Option Bool
  pub folder_id : String
  pub folder_label : String
  pub folder_path : String
  pub folder_type : String
  pub folder_ids : List String
  pub target_device_id : String

-- Which of the callbacks are set; the one that answers is the function itself.
pub record Callbacks : Type 0 where
  pub on_accepted : Bool
  pub on_cancelled : Bool
  pub on_hello : Bool
  pub on_peer_state : Bool
  pub on_trusted : Bool
  pub on_folder_offer : Bool
  pub on_folder_accept : Bool
  pub on_folder_decline : Bool
  pub on_folder_remove : Bool
  pub on_folder_sync : Bool
  pub on_peer_verified : Bool
  pub on_validate_cert_fp : Option (String → String → Bool)

pub data Event : Type 0 where
  accepted_from cancelled_from : String → Event
  hello_from : String → String → ℤ → ℤ → Event
  state_from : String → String → Option DeviceInfo → Event
  trusted_from : String → Bool → Event
  offer_from : String → String → String → String → Event
  accept_from : String → String → String → Event
  decline_from : String → String → Event
  remove_from : String → String → String → Event
  sync_from : String → List String → Event
  verified_as : String → String → Event
  adopts_addr : String → String → Event  -- `adoptConnByAddr`
  adopts_key : String → String → Event  -- `adoptConn`

abbrev pub emit_if : Bool → Event → List Event
emit_if b e = if b then e ∷ [] else []

unfoldable pub dispatch_hello : Callbacks → Message → String → List Event
dispatch_hello cb msg remote_ip =
    emit_if cb.on_hello (hello_from msg.device_id remote_ip msg.port msg.st_port)
    ++ (emit_if (cb.on_peer_state && not (msg.name is ""))
          (state_from msg.device_id msg.name msg.info)
        ++ (elim msg.trusted [
          | none ↦ []
          | some t ↦ emit_if cb.on_trusted (trusted_from msg.device_id t)
        ]))

unfoldable pub dispatch : Callbacks → Message → String → List Event
unfolding dispatch_hello
dispatch cb msg remote_ip = elim msg.kind [
  | hello ↦ dispatch_hello cb msg remote_ip
  | peer_state ↦ emit_if cb.on_peer_state (state_from msg.device_id msg.name msg.info)
  | accepted ↦ emit_if cb.on_accepted (accepted_from msg.device_id)
  | cancelled ↦ emit_if cb.on_cancelled (cancelled_from msg.device_id)
  | folder_offer ↦
      emit_if cb.on_folder_offer
        (offer_from msg.device_id msg.folder_id msg.folder_label msg.folder_type)
  | folder_accept ↦
      emit_if cb.on_folder_accept (accept_from msg.device_id msg.folder_id msg.folder_path)
  | folder_decline ↦ emit_if cb.on_folder_decline (decline_from msg.device_id msg.folder_id)
  | folder_remove ↦
      emit_if cb.on_folder_remove (remove_from msg.device_id msg.folder_id msg.target_device_id)
  | folder_sync ↦ emit_if cb.on_folder_sync (sync_from msg.device_id msg.folder_ids)
  | unknown other ↦ []
]

-- The device on whose behalf an event happens.
abbrev pub device_of : Event → String
device_of (accepted_from d) = d
device_of (cancelled_from d) = d
device_of (hello_from d ip port st_port) = d
device_of (state_from d name info) = d
device_of (trusted_from d t) = d
device_of (offer_from d fid label kind) = d
device_of (accept_from d fid path) = d
device_of (decline_from d fid) = d
device_of (remove_from d fid target) = d
device_of (sync_from d fids) = d
device_of (verified_as d fp) = d
device_of (adopts_addr ip d) = d
device_of (adopts_key key d) = d

-- Every event of a list happens on behalf of the device `d`.
abbrev pub IsFrom : String → List Event → Type 0
IsFrom d es = All (λ e. device_of e ≡ d) es

pub append-IsFrom :
    (d : String) (es fs : List Event) → IsFrom d es → IsFrom d fs → IsFrom d (es ++ fs)
append-IsFrom d es fs v w = append-All (λ e. device_of e ≡ d) es fs v w

pub emit_if-IsFrom : (d : String) (b : Bool) (e : Event) → device_of e ≡ d → IsFrom d (emit_if b e)
emit_if-IsFrom d true e h = (h, tt)
emit_if-IsFrom d false e h = tt

dispatch_hello-IsFrom :
    (cb : Callbacks) (msg : Message) (remote_ip : String)
    → IsFrom msg.device_id (dispatch_hello cb msg remote_ip)
unfolding dispatch_hello
dispatch_hello-IsFrom cb msg remote_ip =
    append-IsFrom msg.device_id
      (emit_if cb.on_hello (hello_from msg.device_id remote_ip msg.port msg.st_port)) _
      (emit_if-IsFrom msg.device_id cb.on_hello _ refl)
      (append-IsFrom msg.device_id
        (emit_if (cb.on_peer_state && not (msg.name is ""))
          (state_from msg.device_id msg.name msg.info))
        _ (emit_if-IsFrom msg.device_id _ _ refl) (trust_event msg.trusted))
  where
    trust_event :
        (t : Option Bool)
        → IsFrom msg.device_id
            (elim t [ none ↦ [] | some t ↦ emit_if cb.on_trusted (trusted_from msg.device_id t) ])
    trust_event none = tt
    trust_event (some t) = emit_if-IsFrom msg.device_id cb.on_trusted _ refl

-- Whatever the message, its events happen on behalf of the device that it names.
pub dispatch-IsFrom :
    (cb : Callbacks) (msg : Message) (remote_ip : String)
    → IsFrom msg.device_id (dispatch cb msg remote_ip)
unfolding dispatch
dispatch-IsFrom cb msg remote_ip = by_kind msg.kind
  where
    by_kind : (k : MsgType) → IsFrom msg.device_id (dispatch cb (record msg { kind = k }) remote_ip)
    by_kind hello = unfold dispatch dispatch_hello in dispatch_hello-IsFrom cb msg remote_ip
    by_kind peer_state = unfold dispatch in emit_if-IsFrom msg.device_id _ _ refl
    by_kind accepted = unfold dispatch in emit_if-IsFrom msg.device_id _ _ refl
    by_kind cancelled = unfold dispatch in emit_if-IsFrom msg.device_id _ _ refl
    by_kind folder_offer = unfold dispatch in emit_if-IsFrom msg.device_id _ _ refl
    by_kind folder_accept = unfold dispatch in emit_if-IsFrom msg.device_id _ _ refl
    by_kind folder_decline = unfold dispatch in emit_if-IsFrom msg.device_id _ _ refl
    by_kind folder_remove = unfold dispatch in emit_if-IsFrom msg.device_id _ _ refl
    by_kind folder_sync = unfold dispatch in emit_if-IsFrom msg.device_id _ _ refl
    by_kind (unknown other) = unfold dispatch in tt
