-- ===== src/Api/Shown/Order.antt =====
-- Which incoming requests are shown. The order in which a Go map is walked is not fixed, so the abstract
-- view of the list forgets its order.
use mathlib.Core.Quot
use mathlib.Core.Quot.{Quot}
use we_sync.Base.{
  ℕ, ◌+◌, ◌≡◌, refl, ◌∙◌, sym, ap, Bool, true, not, ◌&&◌, ◌||◌, List, [], ◌∷◌, Option, none, some,
  String, Map, lookup, prefix, insert, has, has-insert, is_some, if◌then◌else◌, ◌is◌, is_iff,
  is_self, arith,
}
use we_sync.Node.Peer.{Peer}
use we_sync.Node.State.{State, is_trusted}
use we_sync.Api.Shown.{IncomingRequest, shown_name, incoming_loop, build_incoming, is_key}

abbrev pub is_item : IncomingRequest → IncomingRequest → Bool
is_item r q = (r.device_id is q.device_id) && (r.name is q.name)

abbrev pub count : IncomingRequest → List IncomingRequest → ℕ
count r [] = 0
count r (q ∷ qs) = (if is_item q r then 1 else 0) + count r qs

-- Two lists hold the same requests, as often.
abbrev pub SameItems : List IncomingRequest → List IncomingRequest → Type 0
SameItems xs ys = (r : IncomingRequest) → count r xs ≡ count r ys

abbrev pub Bag : Type 0
Bag = Quot SameItems

abbrev pub bag_of : List IncomingRequest → Bag
bag_of rs = Quot.mk rs

-- Two walks are of one map.
abbrev pub SameMap : Map Bool → Map Bool → Type 0
SameMap m n = (k : String) → lookup k m ≡ lookup k n

incoming_loop-count :
    (self_id : String) (s : State) (live : Map Peer) (seen m : Map Bool) (r : IncomingRequest)
    → let e = r.device_id in
      count r (incoming_loop self_id s live seen m) ≡ (
        if is_key e m
          && not ((e is self_id) || is_trusted s e || has e seen)
          && (shown_name live e is r.name)
        then 1
        else 0)
unfolding incoming_loop
incoming_loop-count self_id s live seen [] r = refl
incoming_loop-count self_id s live seen ((id, v) ∷ m) r = ground (
  arith,
  incoming_loop-count self_id s live seen m r,
  incoming_loop-count self_id s live (insert id true seen) m r,
  has-insert r.device_id id true seen,
  is_iff id r.device_id,
  is_self id,
)

is_key-lookup : (k : String) (m : Map Bool) → is_key k m ≡ is_some (lookup k m)
unfolding lookup
is_key-lookup k [] = refl
is_key-lookup k ((j, v) ∷ m) = ground (arith, is_key-lookup k m)

-- The state with this walk of the peers that trust it.
abbrev pub trusted_by : State → Map Bool → State
trusted_by s m = record s { they_trust_us = m }

pub build_incoming-SameItems :
    (self_id : String) (s : State) (live : Map Peer) (m n : Map Bool)
    → SameMap m n
    → SameItems
        (build_incoming self_id (trusted_by s m) live)
        (build_incoming self_id (trusted_by s n) live)
unfolding build_incoming is_trusted
build_incoming-SameItems self_id s live m n h r =
    let e = r.device_id in
    let key : is_key e m ≡ is_key e n =
      is_key-lookup e m ∙ ap (λ o. is_some o) (h e) ∙ sym (is_key-lookup e n) in
    ground (
      arith,
      incoming_loop-count self_id (trusted_by s m) live [] m r,
      incoming_loop-count self_id (trusted_by s n) live [] n r,
      key,
    )

abbrev pub due_name : String → Option Peer → String
due_name id none = prefix 7 id
due_name id (some p) = if p.name is "" then prefix 7 id else p.name

-- Whether a request is one that is to be shown: of a device that trusts this node, is not this node
-- and is not trusted by it, with the name that is known of the device or the first letters of its ID.
abbrev pub is_due : String → State → Map Peer → IncomingRequest → Bool
is_due self_id s live r =
    is_some (lookup r.device_id s.they_trust_us)
    && not (r.device_id is self_id)
    && not (has r.device_id s.trusted_ids)
    && (due_name r.device_id (lookup r.device_id live) is r.name)
