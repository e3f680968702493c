-- ===== src/Api/Shown.antt =====
-- internal/api/push.go: the lists of the snapshot that is pushed to the user interface. A Go map is
-- walked in the order of its association list.
pub mod Order
mod Tests
use we_sync.Base.{
  ℕ, Bool, true, false, not, ◌&&◌, ◌||◌, List, [], ◌∷◌, ◌++◌, Option, none, some, String, Map,
  lookup, insert, has, has-insert, if◌then◌else◌, ◌is◌, any, ◌≡◌, refl, ap, ◌∙◌, arith, is_iff,
}
use we_sync.Node.Peer.{Peer, DeviceInfo}
use we_sync.Node.State.{State, is_trusted, short_id}

pub record IncomingRequest : Type 0 where
  pub device_id : String
  pub name : String

-- The name in the list: the peer's, or the short ID.
unfoldable pub shown_name : Map Peer → String → String
shown_name live id = elim (lookup id live) [
  | none ↦ short_id id
  | some p ↦ if p.name is "" then short_id id else p.name
]

-- The loop of `buildIncoming` over `theyTrustUs`, with `seen`.
unfoldable pub incoming_loop :
    String → State → Map Peer → Map Bool → Map Bool → List IncomingRequest
incoming_loop self_id s live seen [] = []
incoming_loop self_id s live seen ((id, v) ∷ m) =
    let skipped = incoming_loop self_id s live seen m in
    let taken = incoming_loop self_id s live (insert id true seen) m in
    if (id is self_id) || is_trusted s id || has id seen
    then skipped
    else record { device_id = id; name = shown_name live id } ∷ taken

unfoldable pub build_incoming : String → State → Map Peer → List IncomingRequest
unfolding incoming_loop
build_incoming self_id s live = incoming_loop self_id s live [] s.they_trust_us

pub record DeviceWithStatus : Type 0 where
  pub device_id : String
  pub name : String
  pub connected : Bool
  pub st_paired : Bool
  pub accepted : Bool
  pub last_seen : Option ℕ
  pub info : Option DeviceInfo

unfoldable pub paired_devices : State → Map Peer → Map Bool → Map Bool → List DeviceWithStatus
unfolding shown_name
paired_devices s live connected [] = []
paired_devices s live connected ((id, v) ∷ m) =
    record {
      device_id = id;
      name = shown_name live id;
      connected = has id connected;
      st_paired = true;
      accepted = has id s.they_trust_us;
      last_seen = lookup id s.device_last_seen;
      info = elim (lookup id live) [ none ↦ none | some p ↦ p.info ];
    }
    ∷ paired_devices s live connected m

-- `wired` is whether `PeerAddr` knows the device, `present` the answer of `PresentAddr`.
unfoldable pub is_discoverable :
    String → Map Bool → (String → Bool) → (String → Bool) → String → Peer → Bool
is_discoverable self_id in_list wired present id p =
    not (has id in_list || (id is self_id)) && wired id && present p.addr

unfoldable pub live_devices :
    String → Map Bool → (String → Bool) → (String → Bool) → Map Peer → List DeviceWithStatus
unfolding is_discoverable
live_devices self_id in_list wired present [] = []
live_devices self_id in_list wired present ((id, p) ∷ m) =
    let rest = live_devices self_id in_list wired present m in
    if is_discoverable self_id in_list wired present id p
    then record {
      device_id = id;
      name = p.name;
      connected = true;
      st_paired = false;
      accepted = false;
      last_seen = none;
      info = p.info;
    }
      ∷ rest
    else rest

unfoldable pub build_device_list :
    String
    → State
    → Map Bool
    → Map Peer
    → Map Bool
    → (String → Bool)
    → (String → Bool)
    → List DeviceWithStatus
unfolding paired_devices live_devices
build_device_list self_id s trusted live connected wired present =
    paired_devices s live connected trusted
    ++ live_devices self_id (in_list trusted) wired present live
  where
    in_list : Map Bool → Map Bool
    in_list [] = []
    in_list ((id, v) ∷ m) = insert id true (in_list m)

-- A key of the map.
abbrev pub is_key {ℓ} : {V : Type ℓ} → String → Map V → Bool
is_key e m = any (λ b. b.0 is e) m

incoming_loop-shown :
    (self_id : String) (s : State) (live : Map Peer) (seen m : Map Bool) (e : String)
    → any (λ r. r.device_id is e) (incoming_loop self_id s live seen m)
      ≡ (is_key e m && not ((e is self_id) || is_trusted s e || has e seen))
unfolding incoming_loop
incoming_loop-shown self_id s live seen [] e = refl
incoming_loop-shown self_id s live seen ((id, v) ∷ m) e = ground (
  arith,
  incoming_loop-shown self_id s live seen m e,
  incoming_loop-shown self_id s live (insert id true seen) m e,
  has-insert e id true seen,
  is_iff id e,
)

-- The requests that are shown as incoming are exactly those of the devices that trust this node,
-- without itself and without the devices that it trusts.
pub build_incoming-shown :
    (self_id : String) (s : State) (live : Map Peer) (e : String)
    → any (λ r. r.device_id is e) (build_incoming self_id s live)
      ≡ (is_key e s.they_trust_us && not ((e is self_id) || is_trusted s e))
unfolding build_incoming has lookup
build_incoming-shown self_id s live e =
    incoming_loop-shown self_id s live [] s.they_trust_us e
    ∙ ap (λ t. is_key e s.they_trust_us && not t) (drop ((e is self_id) || is_trusted s e))
  where
    drop : (x : Bool) → (x || false) ≡ x
    drop x = ground arith
