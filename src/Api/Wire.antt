-- ===== src/Api/Wire.antt =====
-- internal/api/handlers.go: what the handlers ask of the wire and of the discovery when the app comes
-- to the foreground or leaves it, and the requests on the mode and the name.
use we_sync.Base.{
  ℕ, Bool, true, false, not, ◌&&◌, ◌||◌, List, [], ◌∷◌, Option, none, some, String, Map, lookup,
  if◌then◌else◌, ◌is◌, ◌==◌, any, ◌≡◌, refl, ap, arith, Option-cases, inl, inr,
}
use we_sync.Node.Peer.{Peer}
use we_sync.Node.State.{State}
use we_sync.Store.{Settings, set_visible, set_name}
use we_sync.Api.Pairing.{Status, no_content, bad_request, server_error}

pub data WireCall : Type 0 where
  set_accepting : Bool → WireCall
  disconnect_all : WireCall
  connect : (device addr : String) (port : ℕ) → WireCall
  set_self_name : String → WireCall
  broadcast_peer_state : WireCall

-- Where `MaintainConnections` dials a trusted device.
unfoldable pub endpoint : Map Peer → Map String → ℕ → String → Option (String × ℕ)
endpoint live st_addrs self_port id =
    let by_syncthing : Option (String × ℕ) = elim (lookup id st_addrs) [
      | none ↦ none
      | some ip ↦ if ip is "" then none else some (ip, self_port)
    ] in
    elim (lookup id live) [
      | none ↦ by_syncthing
      | some p ↦
          if not (p.addr is "") && not (p.port == 0) then some (p.addr, p.port) else by_syncthing
    ]

unfoldable pub dial_each : Map Peer → Map String → ℕ → Map Bool → List WireCall
unfolding endpoint
dial_each live st_addrs self_port [] = []
dial_each live st_addrs self_port ((id, v) ∷ m) =
    let rest = dial_each live st_addrs self_port m in
    elim (endpoint live st_addrs self_port id) [ none ↦ rest | some e ↦ connect id e.0 e.1 ∷ rest ]

-- `st_addrs` is the answer of `GetConnectedAddresses`, empty for an error.
unfoldable pub maintain_connections : Bool → State → Map String → ℕ → List WireCall
unfolding dial_each
maintain_connections active s st_addrs self_port =
    if not active then [] else dial_each s.peers st_addrs self_port s.trusted_ids

unfoldable pub set_active : Bool → State → Map String → ℕ → List WireCall
unfolding maintain_connections
set_active active s st_addrs self_port =
    if active
    then set_accepting true ∷ maintain_connections true s st_addrs self_port
    else set_accepting false ∷ disconnect_all ∷ []

-- `SetForeground`: what the discovery is told, and the calls of the wire; and the PUT of `Active`, none
-- if the body does not decode.
unfoldable pub set_foreground : Bool → State → Map String → ℕ → Bool × List WireCall
unfolding set_active
set_foreground active s st_addrs self_port = (active, set_active active s st_addrs self_port)

unfoldable pub put_active :
    Option Bool → State → Map String → ℕ → Option (Bool × List WireCall) × Status
unfolding set_foreground
put_active none s st_addrs self_port = (none, bad_request)
put_active (some active) s st_addrs self_port =
    (some (set_foreground active s st_addrs self_port), no_content)

-- The PUT of `Mode`: the row, what the discovery is told, and the status. `writes` says whether the
-- database takes a write.
unfoldable pub put_mode : Bool → Option Bool → Settings → Settings × (Option Bool × Status)
unfolding set_visible
put_mode writes none r = (r, (none, bad_request))
put_mode writes (some visible) r =
    if writes
    then (set_visible visible r, (some visible, no_content))
    else (r, (none, server_error))

-- `Name`, which goes on if the database does not take the write.
unfoldable pub put_name :
    Bool → Option String → Settings → State → Settings × (State × (List WireCall × Status))
unfolding set_name
put_name writes none r s = (r, (s, ([], bad_request)))
put_name writes (some name) r s = if name is "" then (r, (s, ([], bad_request))) else (
  if writes then set_name name r else r,
  (record s { name = name }, (set_self_name name ∷ broadcast_peer_state ∷ [], no_content)),
)

-- The call dials the device.
abbrev pub dials : String → WireCall → Bool
dials e (connect id addr port) = id is e
dials e _ = false

abbrev pub has_endpoint : Map Peer → Map String → ℕ → String → Bool
has_endpoint live st_addrs self_port id = elim (endpoint live st_addrs self_port id) [
  | none ↦ false
  | some _ ↦ true
]

dial_each-dials :
    (live : Map Peer) (st_addrs : Map String) (self_port : ℕ) (m : Map Bool) (e : String)
    → any (dials e) (dial_each live st_addrs self_port m)
      ≡ any (λ b. (b.0 is e) && has_endpoint live st_addrs self_port b.0) m
unfolding dial_each
dial_each-dials live st_addrs self_port [] e = refl
dial_each-dials live st_addrs self_port ((id, v) ∷ m) e =
    elim (Option-cases (endpoint live st_addrs self_port id)) [
      | inl n ↦
          rw (n, dial_each)
            (none_first (id is e) (has_endpoint live st_addrs self_port id) _ _ (ap known n)
              (dial_each-dials live st_addrs self_port m e))
      | inr (x, n) ↦
          rw (n, dial_each)
            (some_first (id is e) (has_endpoint live st_addrs self_port id) _ _ (ap known n)
              (dial_each-dials live st_addrs self_port m e))
    ]
  where
    known : Option (String × ℕ) → Bool
    known o = elim o [ none ↦ false | some _ ↦ true ]

    none_first : (q c r t : Bool) → c ≡ false → r ≡ t → r ≡ ((q && c) || t)
    none_first q c r t k h = ground (arith, h, k)

    some_first : (q c r t : Bool) → c ≡ true → r ≡ t → (q || r) ≡ ((q && c) || t)
    some_first q c r t k h = ground (arith, h, k)

-- Coming to the foreground, a node dials exactly the devices that it trusts and of which it knows
-- where to dial them; leaving it, it dials nobody.
pub set_active-dials :
    (active : Bool) (s : State) (st_addrs : Map String) (self_port : ℕ) (e : String)
    → any (dials e) (set_active active s st_addrs self_port) ≡ (
        active
        && any (λ b. (b.0 is e) && has_endpoint s.peers st_addrs self_port b.0) s.trusted_ids)
unfolding set_active maintain_connections
set_active-dials true s st_addrs self_port e =
    dial_each-dials s.peers st_addrs self_port s.trusted_ids e
set_active-dials false s st_addrs self_port e = refl
