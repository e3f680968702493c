-- ===== src/Peerwire/Outbound.antt =====
-- `readLoop` and `sendHello` of internal/peerwire/conn.go, and `SendHelloTo` of hub.go: the side that
-- has opened the connection.
pub mod Auth
use we_sync.Base.{
  not, ◌&&◌, List, [], ◌∷◌, ◌++◌, Bool, true, false, Option, none, some, String, if◌then◌else◌,
  ◌is◌,
}
use we_sync.Peerwire.Message.{Message, Callbacks, Event, emit_if, dispatch, verified_as, adopts_key}
use we_sync.Peerwire.Inbound.{is_hello}

-- What the dial has shown of the peer's certificate, with empty texts where there is no TLS, and the
-- connection's key in the hub.
pub record Dialled : Type 0 where
  pub remote_cert_fp : String
  pub remote_device_id : String
  pub key : String

abbrev pub with_id : String → Message → Message
with_id id msg = if id is "" then msg else record msg { device_id = id }

unfoldable pub is_mismatch : Dialled → Message → Bool
is_mismatch c msg =
    not (c.remote_cert_fp is "") && not (msg.cert_fp is "") && not (msg.cert_fp is c.remote_cert_fp)

-- What the first Hello sets off before it is dispatched.
unfoldable pub on_hello_of : Callbacks → Dialled → Message → List Event
on_hello_of cb c msg =
    emit_if (not (c.remote_cert_fp is "") && cb.on_peer_verified)
      (verified_as c.key c.remote_cert_fp)
    ++ emit_if (not (msg.device_id is "") && not (msg.device_id is c.key))
        (adopts_key c.key msg.device_id)

-- The loop, with the flag `certVerified`.
unfoldable pub read_loop : Callbacks → Dialled → String → Bool → List (Option Message) → List Event
unfolding is_mismatch on_hello_of
read_loop cb c remote_ip verified [] = []
read_loop cb c remote_ip verified (none ∷ frames) = read_loop cb c remote_ip verified frames
read_loop cb c remote_ip verified (some claimed ∷ frames) =
    let msg = with_id c.remote_device_id claimed in
    let rest = read_loop cb c remote_ip verified frames in
    let rest_verified = read_loop cb c remote_ip true frames in
    if is_hello claimed && not verified
    then (if is_mismatch c claimed
        then []
        else on_hello_of cb c msg ++ (dispatch cb msg remote_ip ++ rest_verified))
    else if verified
    then dispatch cb msg remote_ip ++ rest
    else dispatch cb claimed remote_ip ++ rest

-- The trust that a Hello tells: yes, no, or nothing. The tests are none where the hub has none.
unfoldable pub hello_trusted :
    Option (String → Bool) → Option (String → Bool) → Dialled → Option Bool
hello_trusted is_trusted is_removed c =
    let id = if c.remote_device_id is "" then c.key else c.remote_device_id in
    if (elim is_trusted [ none ↦ false | some p ↦ p id ])
    then some true
    else if (elim is_removed [ none ↦ false | some p ↦ p id ])
    then some false
    else none

-- The trust that the Hello of `SendHelloTo` tells.
unfoldable pub hello_to_trusted : Option (String → Bool) → String → Option Bool
hello_to_trusted is_trusted device_id =
    some (elim is_trusted [ none ↦ false | some p ↦ p device_id ])
