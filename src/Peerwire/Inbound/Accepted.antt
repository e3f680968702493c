-- ===== src/Peerwire/Inbound/Accepted.antt =====
-- The acceptances among the events that the frames of a connection set off.
use we_sync.Base.{
  ◌≡◌, refl, not, ◌&&◌, ◌||◌, ◌∙◌, List, [], ◌∷◌, Bool, true, false, Option, none, some, String,
  ◌is◌, arith, All, append-All, any, ap,
}
use we_sync.Peerwire.Message.{
  Message, MsgType, Callbacks, Event, hello, peer_state, accepted, cancelled, folder_offer,
  folder_accept, folder_decline, folder_remove, folder_sync, unknown, accepted_from, emit_if,
  dispatch, dispatch_hello, device_of, trusted_from,
}
use we_sync.Peerwire.Inbound.{
  Tls, cert, Rules, identified, on_first_hello, read_frames, read_inbound,
}
use we_sync.Peerwire.Inbound.Auth.{EachFrame, read_frames-All, read_inbound-IsFrom}

abbrev pub is_accepted : Event → Bool
is_accepted (accepted_from d) = true
is_accepted _ = false

abbrev says_accepted : MsgType → Bool
says_accepted accepted = true
says_accepted _ = false

-- A frame that says that a pairing is accepted.
abbrev pub is_acceptance : Option Message → Bool
is_acceptance none = false
is_acceptance (some msg) = says_accepted msg.kind

abbrev Calm : Event → Type 0
Calm e = is_accepted e ≡ false

emit_if-Calm : (b : Bool) (e : Event) → Calm e → All Calm (emit_if b e)
emit_if-Calm true e h = (h, tt)
emit_if-Calm false e h = tt

dispatch_hello-Calm :
    (cb : Callbacks) (msg : Message) (remote_ip : String)
    → All Calm (dispatch_hello cb msg remote_ip)
unfolding dispatch_hello
dispatch_hello-Calm cb msg remote_ip =
    append-All Calm (emit_if cb.on_hello _) _ (emit_if-Calm cb.on_hello _ refl) (
      append-All Calm (emit_if (cb.on_peer_state && not (msg.name is "")) _) _
        (emit_if-Calm (cb.on_peer_state && not (msg.name is "")) _ refl) (trust_event msg.trusted))
  where
    trust_event :
        (t : Option Bool)
        → All Calm
            (elim t [ none ↦ [] | some t ↦ emit_if cb.on_trusted (trusted_from msg.device_id t) ])
    trust_event none = tt
    trust_event (some t) = emit_if-Calm cb.on_trusted _ refl

dispatch-Calm :
    (cb : Callbacks) (msg : Message) (remote_ip : String)
    → says_accepted msg.kind ≡ false
    → All Calm (dispatch cb msg remote_ip)
unfolding dispatch
dispatch-Calm cb msg remote_ip h = by_kind msg.kind h
  where
    by_kind :
        (k : MsgType)
        → says_accepted k ≡ false
        → All Calm (dispatch cb (record msg { kind = k }) remote_ip)
    by_kind hello h = unfold dispatch dispatch_hello in dispatch_hello-Calm cb msg remote_ip
    by_kind peer_state h = unfold dispatch in emit_if-Calm _ _ refl
    by_kind accepted h = ground (arith, h)
    by_kind cancelled h = unfold dispatch in emit_if-Calm _ _ refl
    by_kind folder_offer h = unfold dispatch in emit_if-Calm _ _ refl
    by_kind folder_accept h = unfold dispatch in emit_if-Calm _ _ refl
    by_kind folder_decline h = unfold dispatch in emit_if-Calm _ _ refl
    by_kind folder_remove h = unfold dispatch in emit_if-Calm _ _ refl
    by_kind folder_sync h = unfold dispatch in emit_if-Calm _ _ refl
    by_kind (unknown other) h = unfold dispatch in tt

on_first_hello-Calm :
    (r : Rules) (tls : Tls) (remote_ip : String) (msg : Message)
    → All Calm (on_first_hello r tls remote_ip msg)
unfolding on_first_hello
on_first_hello-Calm r tls remote_ip msg =
    append-All Calm (emit_if (not (remote_ip is "") && not (msg.device_id is "")) _) _
      (emit_if-Calm (not (remote_ip is "") && not (msg.device_id is "")) _ refl)
      (emit_if-Calm r.cb.on_peer_verified _ refl)

identified-kind : (fp dev : String) (msg : Message) → (identified (cert fp dev) msg).kind ≡ msg.kind
unfolding identified
identified-kind fp dev msg = ground arith

EachFrame-Calm :
    (r : Rules) (fp dev remote_ip : String) (frames : List (Option Message))
    → any is_acceptance frames ≡ false
    → EachFrame Calm r (cert fp dev) remote_ip frames
EachFrame-Calm r fp dev remote_ip [] h = tt
EachFrame-Calm r fp dev remote_ip (none ∷ frames) h = EachFrame-Calm r fp dev remote_ip frames h
EachFrame-Calm r fp dev remote_ip (some msg ∷ frames) h = (
  (
    on_first_hello-Calm r (cert fp dev) remote_ip (identified (cert fp dev) msg),
    dispatch-Calm r.cb (identified (cert fp dev) msg) remote_ip
        (ap says_accepted (identified-kind fp dev msg) ∙ head_of (says_accepted msg.kind) _ h),
  ),
  EachFrame-Calm r fp dev remote_ip frames (tail_of (says_accepted msg.kind) _ h),
)
  where
    head_of : (x y : Bool) → (x || y) ≡ false → x ≡ false
    head_of x y h = ground (arith, h)

    tail_of : (x y : Bool) → (x || y) ≡ false → y ≡ false
    tail_of x y h = ground (arith, h)

-- Without a frame that says so, no event is an acceptance; and each is the certificate's device's.
pub read_inbound-calm :
    (r : Rules) (fp dev remote_ip : String) (frames : List (Option Message))
    → (dev is "") ≡ false
    → any is_acceptance frames ≡ false
    → All
        (λ e. (device_of e ≡ dev) × (is_accepted e ≡ false))
        (read_inbound r (cert fp dev) remote_ip frames)
unfolding read_inbound
read_inbound-calm r fp dev remote_ip frames d h =
    both (read_frames r (cert fp dev) remote_ip false frames)
      (read_inbound-IsFrom r fp dev remote_ip frames d).0
      (read_frames-All Calm r (cert fp dev) remote_ip false frames
        (EachFrame-Calm r fp dev remote_ip frames h))
  where
    both :
        (es : List Event)
        → All (λ e. device_of e ≡ dev) es
        → All Calm es
        → All (λ e. (device_of e ≡ dev) × (is_accepted e ≡ false)) es
    both [] v w = tt
    both (e ∷ es) (p, v) (q, w) = ((p, q), both es v w)
