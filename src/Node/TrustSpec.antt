-- ===== src/Node/TrustSpec.antt =====
-- What the trust sets of the state mean for one device: an automaton on three flags. The maps of
-- internal/node/state.go are proved to run one such automaton for each device.
use we_sync.Base.{
  Bool, true, false, not, ◌&&◌, ◌||◌, List, [], ◌∷◌, String, Map, has, if◌then◌else◌, ◌is◌,
}
use we_sync.Node.State.{
  State, DeviceName, trust, untrust, set_they_trust_us, on_peer_trust_signal, reconcile_trust,
  is_listed,
}

pub record View : Type 0 where
  pub trusted : Bool
  pub they_trust : Bool
  pub removed : Bool

unfoldable pub view : State → String → View
view s id = record {
  trusted = has id s.trusted_ids;
  they_trust = has id s.they_trust_us;
  removed = has id s.explicitly_removed;
}

-- The calls that write the trust sets.
pub data Call : Type 0 where
  trusts untrusts : String → Call
  they_trust : String → Bool → Call
  signals : String → Bool → Call
  reconciles : List DeviceName → Map Bool → String → Call

unfoldable pub apply : State → Call → State
apply s (trusts id) = trust s id
apply s (untrusts id) = untrust s id
apply s (they_trust id v) = set_they_trust_us s id v
apply s (signals id v) = (on_peer_trust_signal s id v).0
apply s (reconciles devices introduced self_id) = (reconcile_trust s devices introduced self_id).0

unfoldable pub run : State → List Call → State
unfolding apply
run s [] = s
run s (c ∷ cs) = run (apply s c) cs

-- The automaton of the device `id`.
unfoldable pub next : String → View → Call → View
next id v (trusts j) = if j is id then record v { trusted = true; removed = false } else v
next id v (untrusts j) =
    if j is id then record { trusted = false; they_trust = false; removed = true } else v
next id v (they_trust j b) = if j is id then record v { they_trust = b } else v
next id v (signals j b) = if j is id then record v { they_trust = b } else v
next id v (reconciles devices introduced self_id) =
    if is_listed self_id devices id && not v.trusted && not v.removed
    then record v { trusted = true; they_trust = v.they_trust || has id introduced }
    else v
