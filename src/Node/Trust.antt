-- ===== src/Node/Trust.antt =====
-- The trust sets: the refinement of the automaton, and what follows for any sequence of calls.
use we_sync.Base.{
  ◌≡◌, refl, ap, ◌∙◌, inl, inr, Bool, true, false, not, ◌&&◌, ◌||◌, List, [], ◌∷◌, String, Map, has,
  has-insert, has-delete, lookup, is_some, if◌then◌else◌, any, ◌is◌, is_iff, is_self, arith,
  Bool-cases, All,
}
use we_sync.Node.State.{
  State, DeviceName, trust, untrust, set_they_trust_us, on_peer_trust_signal, reconcile_trust,
  reconcile_devices, reconcile_trust_of, reconcile_name_of, is_listed, removed_of,
}
use we_sync.Node.TrustSpec.{
  View, view, Call, trusts, untrusts, they_trust, signals, reconciles, apply, run, next,
}

-- The flags of the set of trusted devices after one device of the loop.
reconcile_trust_of-view :
    (introduced : Map Bool) (s : State) (d : DeviceName) (id : String)
    → view (reconcile_trust_of introduced s d) id ≡ (
        if (d.id is id) && not (has id s.trusted_ids) && not (has id s.explicitly_removed)
        then record {
          trusted = true;
          they_trust = has id s.they_trust_us || has id introduced;
          removed = has id s.explicitly_removed;
        }
        else view s id)
unfolding reconcile_trust_of view
reconcile_trust_of-view introduced s d id = ground (
  arith,
  is_iff d.id id,
  has-insert id d.id true s.trusted_ids,
  has-insert id d.id true s.they_trust_us,
)

reconcile_name_of-view :
    (s : State) (d : DeviceName) (id : String) → view (reconcile_name_of s d) id ≡ view s id
unfolding reconcile_name_of view
reconcile_name_of-view s d id = ground arith

-- The same, with the flags that the device had.
step_view :
    (introduced : Map Bool) (s : State) (d : DeviceName) (id : String)
    → view (reconcile_trust_of introduced s d) id ≡ (
        if (d.id is id) && not (view s id).trusted && not (view s id).removed
        then record (view s id) {
          trusted = true;
          they_trust = (view s id).they_trust || has id introduced;
        }
        else view s id)
unfolding view
step_view introduced s d id = reconcile_trust_of-view introduced s d id

reconcile_devices-view :
    (introduced : Map Bool) (self_id : String) (s : State) (ds : List DeviceName) (id : String)
    → view (reconcile_devices introduced self_id s ds) id
      ≡ next id (view s id) (reconciles ds introduced self_id)
unfolding reconcile_devices next is_listed
reconcile_devices-view introduced self_id s [] id = refl
reconcile_devices-view introduced self_id s (d ∷ ds) id = elim (Bool-cases (d.id is self_id)) [
  | inl self ↦ ground (arith, reconcile_devices-view introduced self_id s ds id)
  | inr other ↦
      let t = reconcile_trust_of introduced s d in
      rw other (
        ground (
          arith,
          reconcile_devices-view introduced self_id (reconcile_name_of t d) ds id,
          reconcile_name_of-view t d id,
          step_view introduced s d id,
        ))
]

-- Each call moves the flags of each device as the automaton of the device says.
pub apply-view : (s : State) (c : Call) (id : String) → view (apply s c) id ≡ next id (view s id) c
unfolding apply
apply-view s (trusts j) id =
    unfold next view trust in
    ground (arith, has-insert id j true s.trusted_ids, has-delete id j s.explicitly_removed)
apply-view s (untrusts j) id =
    unfold next view untrust in
    ground (
      arith,
      has-delete id j s.trusted_ids,
      has-delete id j s.they_trust_us,
      has-insert id j true s.explicitly_removed,
    )
apply-view s (they_trust j v) id =
    unfold next view set_they_trust_us in
    ground (arith, has-insert id j true s.they_trust_us, has-delete id j s.they_trust_us)
apply-view s (signals j true) id =
    unfold next view on_peer_trust_signal in ground (arith, has-insert id j true s.they_trust_us)
apply-view s (signals j false) id =
    unfold next view on_peer_trust_signal in ground (arith, has-delete id j s.they_trust_us)
apply-view s (reconciles ds introduced self_id) id =
    unfold reconcile_trust in reconcile_devices-view introduced self_id s ds id

-- The automaton over a sequence of calls.
unfoldable pub nexts : String → View → List Call → View
nexts id v [] = v
nexts id v (c ∷ cs) = nexts id (next id v c) cs

-- Whatever the calls, the maps hold for each device the flags that its automaton reaches.
pub run-view :
    (s : State) (cs : List Call) (id : String) → view (run s cs) id ≡ nexts id (view s id) cs
unfolding run nexts
run-view s [] id = refl
run-view s (c ∷ cs) id = run-view (apply s c) cs id ∙ ap (λ v. nexts id v cs) (apply-view s c id)

-- No device is at once trusted and marked as removed.
abbrev pub IsExclusive : State → Type 0
IsExclusive s = (id : String) → (view s id).trusted && (view s id).removed ≡ false

next-exclusive :
    (id : String) (v : View) (c : Call)
    → v.trusted && v.removed ≡ false
    → (next id v c).trusted && (next id v c).removed ≡ false
unfolding next
next-exclusive id v c h = ground (arith, h)

nexts-exclusive :
    (id : String) (v : View) (cs : List Call)
    → v.trusted && v.removed ≡ false
    → (nexts id v cs).trusted && (nexts id v cs).removed ≡ false
unfolding nexts
nexts-exclusive id v [] h = h
nexts-exclusive id v (c ∷ cs) h = nexts-exclusive id (next id v c) cs (next-exclusive id v c h)

-- From a state where no device is at once trusted and marked as removed, none is after any calls.
pub run-IsExclusive : (s : State) (cs : List Call) → IsExclusive s → IsExclusive (run s cs)
run-IsExclusive s cs h id = rw (run-view s cs id) (nexts-exclusive id (view s id) cs (h id))

-- A call that is no `Trust` of the device.
abbrev pub IsNotTrustOf : String → Call → Type 0
IsNotTrustOf id (trusts j) = (j is id) ≡ false
IsNotTrustOf id _ = Unit

next-removed :
    (id : String) (v : View) (c : Call)
    → IsNotTrustOf id c
    → v.removed ≡ true
    → v.trusted ≡ false
    → ((next id v c).removed ≡ true) × ((next id v c).trusted ≡ false)
unfolding next
next-removed id v c n r t = ground (arith, n, r, t)

nexts-removed :
    (id : String) (v : View) (cs : List Call)
    → All (IsNotTrustOf id) cs
    → v.removed ≡ true
    → v.trusted ≡ false
    → ((nexts id v cs).removed ≡ true) × ((nexts id v cs).trusted ≡ false)
unfolding nexts
nexts-removed id v [] n r t = (r, t)
nexts-removed id v (c ∷ cs) n r t =
    let (r', t') = next-removed id v c n.0 r t in nexts-removed id (next id v c) cs n.1 r' t'

-- A device that was removed stays removed and untrusted, through stale device lists, introductions
-- and whatever the peer signals, its own `trusted:false` included, until it is trusted again.
pub run-untrust :
    (s : State) (id : String) (cs : List Call)
    → All (IsNotTrustOf id) cs
    → let v = view (run (untrust s id) cs) id in (v.removed ≡ true) × (v.trusted ≡ false)
run-untrust s id cs n =
    rw (run-view (untrust s id) cs id)
      (nexts-removed id (view (untrust s id) id) cs n (marked s id) (cleared s id))
  where
    marked : (s : State) (id : String) → (view (untrust s id) id).removed ≡ true
    marked s id =
        unfold view untrust in
        ground (arith, has-insert id id true s.explicitly_removed, is_self id)

    cleared : (s : State) (id : String) → (view (untrust s id) id).trusted ≡ false
    cleared s id = unfold view untrust in ground (arith, has-delete id id s.trusted_ids, is_self id)

removed_of-any :
    (self_id : String) (ds : List DeviceName) (m : Map Bool) (id : String)
    → any (λ x. x is id) (removed_of self_id ds m)
      ≡ (is_some (lookup id m) && is_listed self_id ds id)
unfolding removed_of lookup
removed_of-any self_id ds [] id = refl
removed_of-any self_id ds ((k, v) ∷ m) id = elim (Bool-cases (k is id)) [
  | inl same ↦
      rw ((is_iff k id).0 same) (ground (arith, is_self id, removed_of-any self_id ds m id))
  | inr other ↦ ground (arith, removed_of-any self_id ds m id)
]

reconcile_devices-removed :
    (introduced : Map Bool) (self_id : String) (s : State) (ds : List DeviceName)
    → (reconcile_devices introduced self_id s ds).explicitly_removed ≡ s.explicitly_removed
unfolding reconcile_devices reconcile_trust_of reconcile_name_of
reconcile_devices-removed introduced self_id s [] = refl
reconcile_devices-removed introduced self_id s (d ∷ ds) =
    reconcile_devices-removed introduced self_id
      (if d.id is self_id then s else reconcile_name_of (reconcile_trust_of introduced s d) d) ds
    ∙ ground arith

-- The answer of `ReconcileTrust` names a device exactly if it is marked as removed and Syncthing
-- still lists it (and it is not this node).
pub reconcile_trust-removed :
    (s : State) (ds : List DeviceName) (introduced : Map Bool) (self_id id : String)
    → any (λ x. x is id) (reconcile_trust s ds introduced self_id).1
      ≡ (is_some (lookup id s.explicitly_removed) && is_listed self_id ds id)
unfolding reconcile_trust
reconcile_trust-removed s ds introduced self_id id =
    rw (reconcile_devices-removed introduced self_id s ds)
      (removed_of-any self_id ds s.explicitly_removed id)
