-- ===== src/Api/Greeting.antt =====
-- Both ends of the wire: what a node writes when its connection is up (internal/peerwire/conn.go) and
-- what the node at the other end makes of it (internal/peerwire/hub.go, internal/api/handlers.go).
use mathlib.Core.List.{append-nil}
use we_sync.Base.{
  Bool, true, false, not, ◌&&◌, List, [], ◌∷◌, ◌++◌, map, Option, none, some, String, ◌is◌, all,
  ◌≡◌, refl, sym, ap, ◌∙◌, arith, is_self, Bool-cases, inl, inr, subst,
}
use we_sync.Peerwire.Message.{
  Message, MsgType, hello, peer_state, accepted, cancelled, folder_offer, folder_accept,
  folder_decline, folder_remove, folder_sync, unknown, Event, hello_from, state_from, trusted_from,
  verified_as, adopts_addr, emit_if, dispatch, dispatch_hello,
}
use we_sync.Peerwire.Inbound.{
  cert, identified, is_pinned, passes_filter, on_first_hello, read_frames, read_inbound,
}
use we_sync.Peerwire.Offers.{
  Self, Pending, offers, no_message, hello_message, send_hello, drain_offers, pending_folder_ids,
}
use we_sync.Api.NodeEvents.{node_callbacks}
use we_sync.Api.Strangers.Visit.{node_rules}

abbrev is_offer : MsgType → Bool
is_offer folder_offer = true
is_offer _ = false

-- Every message that waits for the device is a folder offer.
abbrev pub all_offers : List Message → Bool
all_offers msgs = all (λ m. is_offer m.kind) msgs

-- What the other node does about a greeting of the device `dev`.
abbrev pub greeting : Self → String → String → String → Option Bool → List Event
greeting s fp dev ip t =
    emit_if (not (ip is "")) (adopts_addr ip dev)
    ++ (verified_as dev fp
        ∷ hello_from dev ip s.self_port s.self_st_port
        ∷ (emit_if (not (s.self_name is "")) (state_from dev s.self_name (some s.self_info))
            ++ (elim t [ none ↦ [] | some v ↦ trusted_from dev v ∷ [] ])))

offer_of : (k : MsgType) → is_offer k ≡ true → k ≡ folder_offer
offer_of hello h = ground (arith, h)
offer_of peer_state h = ground (arith, h)
offer_of accepted h = ground (arith, h)
offer_of cancelled h = ground (arith, h)
offer_of folder_offer h = refl
offer_of folder_accept h = ground (arith, h)
offer_of folder_decline h = ground (arith, h)
offer_of folder_remove h = ground (arith, h)
offer_of folder_sync h = ground (arith, h)
offer_of (unknown other) h = ground (arith, h)

-- Offers set nothing off at the other node.
offers_quiet :
    (fp dev ip : String) (msgs : List Message)
    → (dev is "") ≡ false
    → all_offers msgs ≡ true
    → read_frames (node_rules none) (cert fp dev) ip true (map (λ m. some m) msgs) ≡ []
unfolding read_frames identified dispatch node_callbacks
offers_quiet fp dev ip [] d h = refl
offers_quiet fp dev ip (m ∷ ms) d h =
    subst
      (λ k.
        read_frames (node_rules none) (cert fp dev) ip true
          (some (record m { kind = k }) ∷ map (λ x. some x) ms)
        ≡ [])
      (sym (offer_of m.kind (first_of (is_offer m.kind) _ h)))
      (rw (d, read_frames) (offers_quiet fp dev ip ms d (rest_of (is_offer m.kind) _ h)))
  where
    first_of : (x y : Bool) → (x && y) ≡ true → x ≡ true
    first_of x y h = ground (arith, h)

    rest_of : (x y : Bool) → (x && y) ≡ true → y ≡ true
    rest_of x y h = ground (arith, h)

-- The Hello of a node with a certificate, as the first frame of its connection.
hello_read :
    (s : Self) (dev ip : String) (t : Option Bool) (rest : List (Option Message))
    → (dev is "") ≡ false
    → (s.self_cert_fp is "") ≡ false
    → read_inbound (node_rules none) (cert s.self_cert_fp dev) ip (some (hello_message s t) ∷ rest)
      ≡ greeting s s.self_cert_fp dev ip t
        ++ read_frames (node_rules none) (cert s.self_cert_fp dev) ip true rest
unfolding read_inbound read_frames identified is_pinned passes_filter on_first_hello hello_message
    dispatch dispatch_hello node_callbacks
hello_read s dev ip none rest d f = elim (Bool-cases (ip is "")) [
  | inl e ↦ elim (Bool-cases (s.self_name is "")) [
    | inl g ↦ rw (d, f, is_self s.self_cert_fp, d, e, g) refl
    | inr g ↦ rw (d, f, is_self s.self_cert_fp, d, e, g) refl
  ]
  | inr e ↦ elim (Bool-cases (s.self_name is "")) [
    | inl g ↦ rw (d, f, is_self s.self_cert_fp, d, e, g) refl
    | inr g ↦ rw (d, f, is_self s.self_cert_fp, d, e, g) refl
  ]
]
hello_read s dev ip (some v) rest d f = elim (Bool-cases (ip is "")) [
  | inl e ↦ elim (Bool-cases (s.self_name is "")) [
    | inl g ↦ rw (d, f, is_self s.self_cert_fp, d, e, g) refl
    | inr g ↦ rw (d, f, is_self s.self_cert_fp, d, e, g) refl
  ]
  | inr e ↦ elim (Bool-cases (s.self_name is "")) [
    | inl g ↦ rw (d, f, is_self s.self_cert_fp, d, e, g) refl
    | inr g ↦ rw (d, f, is_self s.self_cert_fp, d, e, g) refl
  ]
]

-- What a node with a certificate writes on a new connection, with any folder offers that wait for the
-- peer, and what the node at the other end, in which everyone may connect, does about it: it takes the
-- writer for the device of its certificate, though the messages leave their device ID empty, hears its
-- ports, its name and its trust, and makes nothing of the offers.
pub send_hello-greeting :
    (s : Self) (p : Pending) (key dev ip : String) (t : Option Bool)
    → (dev is "") ≡ false
    → (s.self_cert_fp is "") ≡ false
    → all_offers (offers p key) ≡ true
    → read_inbound
        (node_rules none)
        (cert s.self_cert_fp dev)
        ip
        (map (λ m. some m) (send_hello s p key t).1)
      ≡ greeting s s.self_cert_fp dev ip t
unfolding send_hello drain_offers
send_hello-greeting s p key dev ip t d f h =
    hello_read s dev ip t (map (λ m. some m) (sync_of (pending_folder_ids p key) ++ offers p key)) d
      f
    ∙ ap (λ es. greeting s s.self_cert_fp dev ip t ++ es) (quiet (pending_folder_ids p key))
    ∙ append-nil (greeting s s.self_cert_fp dev ip t)
  where
    sync_of : List String → List Message
    sync_of [] = []
    sync_of (id ∷ ids) =
        record no_message { kind = folder_sync; device_id = s.self_id; folder_ids = id ∷ ids } ∷ []

    quiet :
        (ids : List String)
        → read_frames
            (node_rules none)
            (cert s.self_cert_fp dev)
            ip
            true
            (map (λ m. some m) (sync_of ids ++ offers p key))
          ≡ []
    quiet [] = offers_quiet s.self_cert_fp dev ip (offers p key) d h
    quiet (id ∷ ids) =
        unfold read_frames identified dispatch node_callbacks in
        rw (d, read_frames) (offers_quiet s.self_cert_fp dev ip (offers p key) d h)
