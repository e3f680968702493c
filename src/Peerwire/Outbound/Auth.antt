-- ===== src/Peerwire/Outbound/Auth.antt =====
-- Whom a node takes the peer for that it has dialled.
use we_sync.Base.{
  ◌≡◌, refl, subst, not, ◌&&◌, List, [], ◌∷◌, ◌++◌, Bool, true, false, Option, none, some, String,
  if◌then◌else◌, ◌is◌, arith,
}
use we_sync.Peerwire.Message.{
  Message, Callbacks, Event, emit_if, dispatch, verified_as, adopts_key, IsFrom, append-IsFrom,
  emit_if-IsFrom, dispatch-IsFrom,
}
use we_sync.Peerwire.Inbound.{is_hello}
use we_sync.Peerwire.Outbound.{
  Dialled, with_id, is_mismatch, on_hello_of, read_loop, hello_trusted, hello_to_trusted,
}

with_id-device_id :
    (id : String) (msg : Message) → (id is "") ≡ false → (with_id id msg).device_id ≡ id
with_id-device_id id msg h = ground (arith, h)

dispatch-with_id-IsFrom :
    (cb : Callbacks) (id remote_ip : String) (msg : Message)
    → (id is "") ≡ false
    → IsFrom id (dispatch cb (with_id id msg) remote_ip)
dispatch-with_id-IsFrom cb id remote_ip msg h =
    subst (λ d. IsFrom d (dispatch cb (with_id id msg) remote_ip)) (with_id-device_id id msg h)
      (dispatch-IsFrom cb (with_id id msg) remote_ip)

verified-IsFrom :
    (cb : Callbacks) (c : Dialled) (remote_ip : String) (frames : List (Option Message))
    → (c.remote_device_id is "") ≡ false
    → IsFrom c.remote_device_id (read_loop cb c remote_ip true frames)
unfolding read_loop
verified-IsFrom cb c remote_ip [] h = tt
verified-IsFrom cb c remote_ip (none ∷ frames) h = verified-IsFrom cb c remote_ip frames h
verified-IsFrom cb c remote_ip (some claimed ∷ frames) h =
    let msg = with_id c.remote_device_id claimed in
    let rest = read_loop cb c remote_ip true frames in
    let spoken = dispatch cb msg remote_ip ++ rest in
    let greeted = if is_mismatch c claimed then [] else on_hello_of cb c msg ++ spoken in
    subst (IsFrom c.remote_device_id) (skip greeted spoken (is_hello claimed)) (
      append-IsFrom c.remote_device_id (dispatch cb msg remote_ip)
        (read_loop cb c remote_ip true frames)
        (dispatch-with_id-IsFrom cb c.remote_device_id remote_ip claimed h)
        (verified-IsFrom cb c remote_ip frames h))
  where
    skip : (es fs : List Event) (b : Bool) → fs ≡ (if b && not true then es else fs)
    skip es fs true = refl
    skip es fs false = refl

hello-IsFrom :
    (cb : Callbacks) (c : Dialled) (msg : Message)
    → c.key ≡ msg.device_id
    → IsFrom msg.device_id (on_hello_of cb c msg)
unfolding on_hello_of
hello-IsFrom cb c msg same =
    append-IsFrom msg.device_id
      (emit_if (not (c.remote_cert_fp is "") && cb.on_peer_verified)
        (verified_as c.key c.remote_cert_fp))
      (emit_if (not (msg.device_id is "") && not (msg.device_id is c.key))
        (adopts_key c.key msg.device_id))
      (emit_if-IsFrom msg.device_id (not (c.remote_cert_fp is "") && cb.on_peer_verified)
        (verified_as c.key c.remote_cert_fp) same)
      (emit_if-IsFrom msg.device_id (not (msg.device_id is "") && not (msg.device_id is c.key))
        (adopts_key c.key msg.device_id) refl)

-- If the first message on a dialled connection is a Hello, and the dial's certificate names a device
-- under which the hub keeps the connection, everything that the frames set off happens on behalf of
-- that device, whatever device IDs the messages claim.
pub read_loop-IsFrom :
    (cb : Callbacks) (c : Dialled) (remote_ip : String) (msg : Message)
    (frames : List (Option Message))
    → (c.remote_device_id is "") ≡ false
    → c.key ≡ c.remote_device_id
    → is_hello msg ≡ true
    → IsFrom c.remote_device_id (read_loop cb c remote_ip false (some msg ∷ frames))
unfolding read_loop
read_loop-IsFrom cb c remote_ip claimed frames h same first =
    let msg = with_id c.remote_device_id claimed in
    let id = with_id-device_id c.remote_device_id claimed h in
    rw first (
      if_not
        (on_hello_of cb c msg
          ++ (dispatch cb msg remote_ip ++ read_loop cb c remote_ip true frames))
        (is_mismatch c claimed)
        (append-IsFrom c.remote_device_id (on_hello_of cb c msg)
          (dispatch cb msg remote_ip ++ read_loop cb c remote_ip true frames)
          (subst (λ d. IsFrom d (on_hello_of cb c msg)) id (hello-IsFrom cb c msg (cc)))
          (append-IsFrom c.remote_device_id (dispatch cb msg remote_ip)
            (read_loop cb c remote_ip true frames)
            (dispatch-with_id-IsFrom cb c.remote_device_id remote_ip claimed h)
            (verified-IsFrom cb c remote_ip frames h))))
  where
    if_not :
        (es : List Event) (b : Bool)
        → IsFrom c.remote_device_id es
        → IsFrom c.remote_device_id (if b then [] else es)
    if_not es true v = tt
    if_not es false v = v

abbrev pub HasNoHello : List (Option Message) → Type 0
HasNoHello [] = Unit
HasNoHello (none ∷ frames) = HasNoHello frames
HasNoHello (some msg ∷ frames) = (is_hello msg ≡ false) × HasNoHello frames

-- Every message as it came, with the device ID that it claims.
unfoldable pub dispatch_all : Callbacks → String → List (Option Message) → List Event
dispatch_all cb remote_ip [] = []
dispatch_all cb remote_ip (none ∷ frames) = dispatch_all cb remote_ip frames
dispatch_all cb remote_ip (some msg ∷ frames) =
    dispatch cb msg remote_ip ++ dispatch_all cb remote_ip frames

-- A dialled peer that sends no Hello is believed: each of its messages is dispatched on behalf of the
-- device that it claims, whatever the certificate says.
pub read_loop_claimed :
    (cb : Callbacks) (c : Dialled) (remote_ip : String) (frames : List (Option Message))
    → HasNoHello frames
    → read_loop cb c remote_ip false frames ≡ dispatch_all cb remote_ip frames
unfolding read_loop dispatch_all
read_loop_claimed cb c remote_ip [] h = refl
read_loop_claimed cb c remote_ip (none ∷ frames) h = read_loop_claimed cb c remote_ip frames h
read_loop_claimed cb c remote_ip (some msg ∷ frames) h =
    rw (h.0, read_loop_claimed cb c remote_ip frames h.1) refl

-- The Hello says `trusted:false`.
abbrev pub tells_removed : Option Bool → Bool
tells_removed none = false
tells_removed (some trusted) = not trusted

-- The device that the trust of a Hello is about.
abbrev pub peer_id : Dialled → String
peer_id c = if c.remote_device_id is "" then c.key else c.remote_device_id

-- A Hello tells a peer `trusted:false` exactly if the peer is not trusted and was explicitly removed;
-- the Hello of `SendHelloTo` tells it to every peer that is not trusted.
pub hello_trusted-tells_removed :
    (is_trusted is_removed : String → Bool) (c : Dialled)
    → (tells_removed (hello_trusted (some is_trusted) (some is_removed) c)
        ≡ (not (is_trusted (peer_id c)) && is_removed (peer_id c)))
      × (tells_removed (hello_to_trusted (some is_trusted) (peer_id c))
          ≡ not (is_trusted (peer_id c)))
unfolding hello_trusted hello_to_trusted
hello_trusted-tells_removed is_trusted is_removed c = (ground arith, ground arith)
