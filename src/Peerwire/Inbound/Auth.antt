-- ===== src/Peerwire/Inbound/Auth.antt =====
-- Whom the hub takes an inbound peer for, and what a peer can do that the checks turn away.
use we_sync.Base.{
  ℕ, zero, suc, ◌≡◌, refl, subst, not, ◌&&◌, List, [], ◌∷◌, ◌++◌, Bool, true, false, Option, none,
  some, String, if◌then◌else◌, ◌is◌, arith, All, append-All,
}
use we_sync.Peerwire.Message.{
  Message, Event, emit_if, dispatch, adopts_addr, device_of, IsFrom, append-IsFrom, emit_if-IsFrom,
  dispatch-IsFrom,
}
use we_sync.Peerwire.Inbound.{
  Tls, no_cert, cert, Rules, is_hello, identified, is_pinned, passes_filter, on_first_hello,
  read_frames, read_inbound,
}

identified-device_id :
    (fp dev : String) (msg : Message)
    → (dev is "") ≡ false
    → (identified (cert fp dev) msg).device_id ≡ dev
unfolding identified
identified-device_id fp dev msg h = ground (arith, h)

on_first_hello-IsFrom :
    (r : Rules) (tls : Tls) (remote_ip : String) (msg : Message)
    → IsFrom msg.device_id (on_first_hello r tls remote_ip msg)
unfolding on_first_hello
on_first_hello-IsFrom r tls remote_ip msg =
    append-IsFrom msg.device_id
      (emit_if (not (remote_ip is "") && not (msg.device_id is ""))
        (adopts_addr remote_ip msg.device_id))
      _ (emit_if-IsFrom msg.device_id _ _ refl) (emit_if-IsFrom msg.device_id _ _ refl)

if-All {ℓ} :
    (P : Event → Type ℓ) (b : Bool) (es fs : List Event)
    → All P es
    → All P fs
    → All P (if b then es else fs)
if-All P true es fs v w = v
if-All P false es fs v w = w

-- What the events of one frame satisfy: those of a first Hello, and those of the message.
abbrev pub EachFrame {ℓ} : (Event → Type ℓ) → Rules → Tls → String → List (Option Message) → Type ℓ
EachFrame P r tls remote_ip [] = Unit
EachFrame P r tls remote_ip (none ∷ frames) = EachFrame P r tls remote_ip frames
EachFrame P r tls remote_ip (some claimed ∷ frames) =
    (All P (on_first_hello r tls remote_ip (identified tls claimed))
      × All P (dispatch r.cb (identified tls claimed) remote_ip))
    × EachFrame P r tls remote_ip frames

pub read_frames-All {ℓ} :
    (P : Event → Type ℓ) (r : Rules) (tls : Tls) (remote_ip : String) (verified : Bool)
    (frames : List (Option Message))
    → EachFrame P r tls remote_ip frames
    → All P (read_frames r tls remote_ip verified frames)
unfolding read_frames
read_frames-All P r tls remote_ip verified [] h = tt
read_frames-All P r tls remote_ip verified (none ∷ frames) h =
    read_frames-All P r tls remote_ip verified frames h
read_frames-All P r tls remote_ip verified (some claimed ∷ frames) ((first, sent), h) =
    let msg = identified tls claimed in
    let rest = read_frames r tls remote_ip true frames in
    let rest' = read_frames r tls remote_ip verified frames in
    let greeted = on_first_hello r tls remote_ip msg ++ (dispatch r.cb msg remote_ip ++ rest) in
    let passes = is_pinned r tls msg && passes_filter r msg in
    if-All P (is_hello msg && not verified) (if passes then greeted else [])
      (dispatch r.cb msg remote_ip ++ rest')
      (if-All P passes greeted []
        (append-All P (on_first_hello r tls remote_ip msg) (dispatch r.cb msg remote_ip ++ rest)
          first
          (append-All P (dispatch r.cb msg remote_ip) rest sent
            (read_frames-All P r tls remote_ip true frames h)))
        tt)
      (append-All P (dispatch r.cb msg remote_ip) rest' sent
        (read_frames-All P r tls remote_ip verified frames h))

EachFrame-IsFrom :
    (r : Rules) (fp dev remote_ip : String) (frames : List (Option Message))
    → (dev is "") ≡ false
    → EachFrame (λ e. device_of e ≡ dev) r (cert fp dev) remote_ip frames
EachFrame-IsFrom r fp dev remote_ip [] h = tt
EachFrame-IsFrom r fp dev remote_ip (none ∷ frames) h = EachFrame-IsFrom r fp dev remote_ip frames h
EachFrame-IsFrom r fp dev remote_ip (some claimed ∷ frames) h =
    let msg = identified (cert fp dev) claimed in
    let same = identified-device_id fp dev claimed h in
    (
      (
        subst (λ d. IsFrom d (on_first_hello r (cert fp dev) remote_ip msg)) same
            (on_first_hello-IsFrom r (cert fp dev) remote_ip msg),
        subst (λ d. IsFrom d (dispatch r.cb msg remote_ip)) same
            (dispatch-IsFrom r.cb msg remote_ip),
      ),
      EachFrame-IsFrom r fp dev remote_ip frames h,
    )

-- With a certificate that names a device, everything that the frames of an inbound connection set off
-- happens on behalf of that device, whatever device IDs the messages claim; with TLS and without a
-- certificate nothing happens.
pub read_inbound-IsFrom :
    (r : Rules) (fp dev remote_ip : String) (frames : List (Option Message))
    → (dev is "") ≡ false
    → IsFrom dev (read_inbound r (cert fp dev) remote_ip frames)
      × (read_inbound r no_cert remote_ip frames ≡ [])
unfolding read_inbound
read_inbound-IsFrom r fp dev remote_ip frames h = (
  read_frames-All (λ e. device_of e ≡ dev) r (cert fp dev) remote_ip false frames
      (EachFrame-IsFrom r fp dev remote_ip frames h),
  refl,
)

-- Frames that do not decode, before others.
abbrev pub garbled : ℕ → List (Option Message) → List (Option Message)
garbled zero frames = frames
garbled (suc n) frames = none ∷ garbled n frames

-- A peer whose first message, after any frames that do not decode, is a Hello that is not pinned or
-- that the filter turns away, sets nothing off at all: no adoption, no verification and no message,
-- then or later.
pub read_inbound-rejected :
    (r : Rules) (fp dev remote_ip : String) (n : ℕ) (msg : Message) (frames : List (Option Message))
    → is_hello (identified (cert fp dev) msg) ≡ true
    → (is_pinned r (cert fp dev) (identified (cert fp dev) msg)
        && passes_filter r (identified (cert fp dev) msg))
      ≡ false
    → read_inbound r (cert fp dev) remote_ip (garbled n (some msg ∷ frames)) ≡ []
unfolding read_inbound read_frames
read_inbound-rejected r fp dev remote_ip zero msg frames h turned_away = rw (h, turned_away) refl
read_inbound-rejected r fp dev remote_ip (suc n) msg frames h turned_away =
    read_inbound-rejected r fp dev remote_ip n msg frames h turned_away

-- No frame is a Hello.
abbrev pub HasNoHello : Tls → List (Option Message) → Type 0
HasNoHello tls [] = Unit
HasNoHello tls (none ∷ frames) = HasNoHello tls frames
HasNoHello tls (some msg ∷ frames) = (is_hello (identified tls msg) ≡ false) × HasNoHello tls frames

abbrev pub unfiltered : Rules → Rules
unfiltered r = record r { accept_filter = none }

-- A peer that never sends a Hello is never asked about: its messages are dispatched as if there were
-- no filter.
pub read_frames-unfiltered :
    (r : Rules) (tls : Tls) (remote_ip : String) (frames : List (Option Message))
    → HasNoHello tls frames
    → read_frames r tls remote_ip false frames
      ≡ read_frames (unfiltered r) tls remote_ip false frames
unfolding read_frames
read_frames-unfiltered r tls remote_ip [] h = refl
read_frames-unfiltered r tls remote_ip (none ∷ frames) h =
    read_frames-unfiltered r tls remote_ip frames h
read_frames-unfiltered r tls remote_ip (some msg ∷ frames) (quiet, h) =
    rw (quiet, read_frames-unfiltered r tls remote_ip frames h) refl
