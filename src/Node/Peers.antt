-- ===== src/Node/Peers.antt =====
-- The peer records: what the writes keep.
use we_sync.Base.{
  ℕ, ◌≡◌, refl, sym, subst, inl, inr, Bool, true, false, List, [], ◌∷◌, Option, none, some, String,
  Map, lookup, insert, lookup-insert, or_else, if◌then◌else◌, ◌is◌, is_iff, is_self, arith,
  Bool-cases,
}
use we_sync.Node.Peer.{DeviceInfo, Peer, zero_peer, Ip, is_routable_addr}
use we_sync.Node.State.{
  State, DeviceName, merge_peer, merged_peer, add_peer_if_absent, set_peer_name_info,
  set_peer_name_if_empty, reconcile_trust, reconcile_devices, reconcile_trust_of, reconcile_name_of,
}

pub data Call : Type 0 where
  merge : String → String → String → ℕ → Option DeviceInfo → Call
  add_if_absent : Peer → Call
  name_info : String → String → Option DeviceInfo → Call
  name_if_empty : String → String → Call
  reconcile : List DeviceName → Map Bool → String → Call

-- The name that the record of a device has, if it has a record.
abbrev pub name_of : State → String → String
name_of s id = (or_else zero_peer (lookup id s.peers)).name

-- `parse_ip` is the parser of addresses of Go's package net.
module _ (parse_ip : String → Option Ip) where
  unfoldable pub apply : State → Call → State
  apply s (merge id name addr port info) = merge_peer parse_ip s id name addr port info
  apply s (add_if_absent p) = add_peer_if_absent s p
  apply s (name_info id name info) = set_peer_name_info s id name info
  apply s (name_if_empty id name) = set_peer_name_if_empty s id name
  apply s (reconcile ds introduced self_id) = (reconcile_trust s ds introduced self_id).0

  unfoldable pub run : State → List Call → State
  unfolding apply
  run s [] = s
  run s (c ∷ cs) = run (apply s c) cs

-- Every record stands under its own device ID.
abbrev pub IsKeyed : State → Type 0
IsKeyed s = (id : String) (p : Peer) → lookup id s.peers ≡ some p → p.device_id ≡ id

insert-IsKeyed :
    (s : State) (id : String) (p : Peer)
    → p.device_id ≡ id
    → IsKeyed s
    → IsKeyed (record s { peers = insert id p s.peers })
insert-IsKeyed s id p e v j q h = ground (arith, lookup-insert j id p s.peers, is_iff id j, v j q)

if-IsKeyed : (b : Bool) (s t : State) → IsKeyed s → IsKeyed t → IsKeyed (if b then s else t)
if-IsKeyed true s t v w = v
if-IsKeyed false s t v w = w

reconcile_device-IsKeyed :
    (introduced : Map Bool) (s : State) (d : DeviceName)
    → IsKeyed s
    → IsKeyed (reconcile_name_of (reconcile_trust_of introduced s d) d)
unfolding reconcile_name_of reconcile_trust_of
reconcile_device-IsKeyed introduced s d v j q h = ground (
  arith,
  lookup-insert j d.id
      (record (or_else zero_peer (lookup d.id s.peers)) { device_id = d.id; name = d.name })
      s.peers,
  is_iff d.id j,
  v j q,
)

reconcile_devices-IsKeyed :
    (introduced : Map Bool) (self_id : String) (s : State) (ds : List DeviceName)
    → IsKeyed s
    → IsKeyed (reconcile_devices introduced self_id s ds)
unfolding reconcile_devices
reconcile_devices-IsKeyed introduced self_id s [] v = v
reconcile_devices-IsKeyed introduced self_id s (d ∷ ds) v =
    let s' = reconcile_name_of (reconcile_trust_of introduced s d) d in
    reconcile_devices-IsKeyed introduced self_id (if d.id is self_id then s else s') ds
      (if-IsKeyed (d.id is self_id) s s' v (reconcile_device-IsKeyed introduced s d v))

merged_peer-id :
    (parse_ip : String → Option Ip) (old : Option Peer) (id name addr : String) (port : ℕ)
    (info : Option DeviceInfo)
    → (merged_peer parse_ip old id name addr port info).device_id ≡ id
unfolding merged_peer
merged_peer-id parse_ip none id name addr port info = refl
merged_peer-id parse_ip (some p) id name addr port info = refl

-- A device that has a name.
abbrev pub IsNamed : State → String → Type 0
IsNamed s id = (name_of s id is "") ≡ false

-- A write of a record keeps the names, if it keeps that of its own key.
insert-IsNamed :
    (s : State) (id : String) (p : Peer) (j : String)
    → (IsNamed s id → (p.name is "") ≡ false)
    → IsNamed s j
    → IsNamed (record s { peers = insert id p s.peers }) j
insert-IsNamed s id p j keeps h = elim (Bool-cases (id is j)) [
  | inl same ↦ ground (
    arith,
    lookup-insert j id p s.peers,
    keeps (subst (IsNamed s) (sym ((is_iff id j).0 same)) h),
  )
  | inr other ↦ ground (arith, lookup-insert j id p s.peers)
]

if-IsNamed :
    (b : Bool) (s t : State) (j : String)
    → IsNamed s j
    → IsNamed t j
    → IsNamed (if b then s else t) j
if-IsNamed true s t j v w = v
if-IsNamed false s t j v w = w

reconcile_device-IsNamed :
    (introduced : Map Bool) (s : State) (d : DeviceName) (j : String)
    → IsNamed s j
    → IsNamed (reconcile_name_of (reconcile_trust_of introduced s d) d) j
unfolding reconcile_name_of reconcile_trust_of
reconcile_device-IsNamed introduced s d j h = ground (
  arith,
  lookup-insert j d.id
      (record (or_else zero_peer (lookup d.id s.peers)) { device_id = d.id; name = d.name })
      s.peers,
  is_iff d.id j,
)

reconcile_devices-IsNamed :
    (introduced : Map Bool) (self_id : String) (s : State) (ds : List DeviceName) (j : String)
    → IsNamed s j
    → IsNamed (reconcile_devices introduced self_id s ds) j
unfolding reconcile_devices
reconcile_devices-IsNamed introduced self_id s [] j h = h
reconcile_devices-IsNamed introduced self_id s (d ∷ ds) j h =
    let s' = reconcile_name_of (reconcile_trust_of introduced s d) d in
    reconcile_devices-IsNamed introduced self_id (if d.id is self_id then s else s') ds j
      (if-IsNamed (d.id is self_id) s s' j h (reconcile_device-IsNamed introduced s d j h))

module _ (parse_ip : String → Option Ip) where
  merge-IsKeyed :
      (s : State) (id name addr : String) (port : ℕ) (info : Option DeviceInfo)
      → IsKeyed s
      → IsKeyed (merge_peer parse_ip s id name addr port info)
  unfolding merge_peer
  merge-IsKeyed s id name addr port info v j q h = ground (
    arith,
    lookup-insert j id (merged_peer parse_ip (lookup id s.peers) id name addr port info) s.peers,
    merged_peer-id parse_ip (lookup id s.peers) id name addr port info,
    lookup-insert j id (record (or_else zero_peer (lookup id s.peers)) { name = name }) s.peers,
    is_iff id j,
    v j q,
    v id (or_else zero_peer (lookup id s.peers)),
  )

  apply-IsKeyed : (s : State) (c : Call) → IsKeyed s → IsKeyed (apply parse_ip s c)
  unfolding apply add_peer_if_absent set_peer_name_info set_peer_name_if_empty reconcile_trust
  apply-IsKeyed s (merge id name addr port info) v = merge-IsKeyed s id name addr port info v
  apply-IsKeyed s (add_if_absent p) v =
      λ j q h. ground (arith, lookup-insert j p.device_id p s.peers, is_iff p.device_id j, v j q)
  apply-IsKeyed s (name_info id name info) v = insert-IsKeyed s id _ refl v
  apply-IsKeyed s (name_if_empty id name) v =
      if-IsKeyed (name is "") s _ v (insert-IsKeyed s id _ refl v)
  apply-IsKeyed s (reconcile ds introduced self_id) v =
      reconcile_devices-IsKeyed introduced self_id s ds v

  -- If every record stands under its own device ID, so it does after any calls that write records.
  pub run-IsKeyed : (s : State) (cs : List Call) → IsKeyed s → IsKeyed (run parse_ip s cs)
  unfolding run
  run-IsKeyed s [] v = v
  run-IsKeyed s (c ∷ cs) v = run-IsKeyed (apply parse_ip s c) cs (apply-IsKeyed s c v)

  merge-IsNamed :
      (s : State) (id name addr : String) (port : ℕ) (info : Option DeviceInfo) (j : String)
      → IsNamed s j
      → IsNamed (merge_peer parse_ip s id name addr port info) j
  unfolding merge_peer merged_peer
  merge-IsNamed s id name addr port info j h = ground (
    arith,
    is_iff id j,
    is_self "",
    lookup-insert j id (merged_peer parse_ip (lookup id s.peers) id name addr port info) s.peers,
    lookup-insert j id (record (or_else zero_peer (lookup id s.peers)) { name = name }) s.peers,
  )

  apply-IsNamed : (s : State) (c : Call) (j : String) → IsNamed s j → IsNamed (apply parse_ip s c) j
  unfolding apply add_peer_if_absent set_peer_name_info set_peer_name_if_empty reconcile_trust
  apply-IsNamed s (merge id name addr port info) j h = merge-IsNamed s id name addr port info j h
  apply-IsNamed s (add_if_absent p) j h =
      ground (arith, lookup-insert j p.device_id p s.peers, is_iff p.device_id j, is_self "")
  apply-IsNamed s (name_info id name info) j h = insert-IsNamed s id _ j (λ n. ground arith) h
  apply-IsNamed s (name_if_empty id name) j h =
      if-IsNamed (name is "") s _ j h (insert-IsNamed s id _ j (λ n. ground arith) h)
  apply-IsNamed s (reconcile ds introduced self_id) j h =
      reconcile_devices-IsNamed introduced self_id s ds j h

  -- A device that has a name is never left without one, whatever is written later.
  pub run-IsNamed :
      (s : State) (cs : List Call) (j : String) → IsNamed s j → IsNamed (run parse_ip s cs) j
  unfolding run
  run-IsNamed s [] j h = h
  run-IsNamed s (c ∷ cs) j h = run-IsNamed (apply parse_ip s c) cs j (apply-IsNamed s c j h)

  -- A Hello from an address that cannot be dialled does not displace the known address of a peer.
  pub merge_peer-addr :
      (s : State) (id name addr : String) (port : ℕ) (info : Option DeviceInfo) (p : Peer)
      → lookup id s.peers ≡ some p
      → (p.addr is "") ≡ false
      → is_routable_addr parse_ip addr ≡ false
      → (or_else zero_peer (lookup id (merge_peer parse_ip s id name addr port info).peers)).addr
        ≡ p.addr
  unfolding merge_peer merged_peer
  merge_peer-addr s id name addr port info p known at off = ground (
    arith,
    is_self id,
    lookup-insert id id (merged_peer parse_ip (lookup id s.peers) id name addr port info) s.peers,
    lookup-insert id id (record p { name = name }) s.peers,
  )
