-- ===== src/Discovery/Presence.antt =====
-- Who counts as present, and who is reported as gone.
use we_sync.Base.{
  ℕ, ◌-◌, ◌≤◌, ◌≡◌, refl, ◌∙◌, Bool, true, false, List, [], ◌∷◌, Option, none, some, String, Map,
  lookup, lookup-insert, IsUnique, insert-IsUnique, if◌then◌else◌, leb, ◌is◌, is_iff, arith,
}
use we_sync.Node.Peer.{Peer}
use we_sync.Discovery.Service.{
  Service, Step, want, fg, expires, expires_orphan, calls_back, ticks, kicks, hears, expiry,
  reads_peer, reads_gone, step, run, report, report_one, set_want_announce, set_foreground,
  expire_timer, expire_orphan, callback, on_announce_tick, on_announce_now, on_peer, on_expiry,
  prune, expired_of, present_addr, grace_period, new,
}

-- The time of the last announce from an address among the steps.
unfoldable pub last_heard : String → Option ℕ → List Step → Option ℕ
last_heard addr t [] = t
last_heard addr t (hears p now ∷ xs) = last_heard addr (if p.addr is addr then some now else t) xs
last_heard addr t (_ ∷ xs) = last_heard addr t xs

-- An announce is recent if it lies no further back than the grace period.
abbrev pub is_recent : ℕ → Option ℕ → Bool
is_recent now none = false
is_recent now (some t) = leb (now - t) grace_period

-- The steps come in the order of the clock, and end by `u`.
abbrev pub IsOrdered : ℕ → List Step → ℕ → Type 0
IsOrdered t [] u = t ≤ u
IsOrdered t (hears p now ∷ xs) u = (t ≤ now) × IsOrdered now xs u
IsOrdered t (expiry now ∷ xs) u = (t ≤ now) × IsOrdered now xs u
IsOrdered t (_ ∷ xs) u = IsOrdered t xs u

lookup-prune-none :
    (now : ℕ) (k : String) (m : Map ℕ) → lookup k m ≡ none → lookup k (prune now m) ≡ none
unfolding lookup prune
lookup-prune-none now k [] h = refl
lookup-prune-none now k ((j, t) ∷ m) h = ground (arith, lookup-prune-none now k m)

lookup-prune :
    (now u : ℕ) (k : String) (m : Map ℕ)
    → now ≤ u
    → IsUnique m
    → is_recent u (lookup k (prune now m)) ≡ is_recent u (lookup k m)
unfolding lookup prune
lookup-prune now u k [] h v = refl
lookup-prune now u k ((j, t) ∷ m) h v =
    ground (arith, is_iff j k, lookup-prune now u k m h v.1, lookup-prune-none now j m v.0)

prune-IsUnique : (now : ℕ) (m : Map ℕ) → IsUnique m → IsUnique (prune now m)
unfolding prune
prune-IsUnique now [] v = tt
prune-IsUnique now ((j, t) ∷ m) v =
    ground (arith, prune-IsUnique now m v.1, lookup-prune-none now j m v.0)

report-addr : (s : Service) (sids : List String) → (report s sids).last_seen_addr ≡ s.last_seen_addr
unfolding report
report-addr s [] = refl
report-addr s (sid ∷ sids) = report-addr (report_one s sid) sids ∙ ground arith

-- What the service remembers of an address is recent exactly if the last announce is.
record Remembers (addr : String) (t : ℕ) (s : Service) (heard : Option ℕ) : Type 0 where
  unique : IsUnique s.last_seen_addr
  same : (u : ℕ) → t ≤ u → is_recent u (lookup addr s.last_seen_addr) ≡ is_recent u heard

same-Remembers :
    (addr : String) (t : ℕ) (s s' : Service) (h : Option ℕ)
    → s'.last_seen_addr ≡ s.last_seen_addr
    → Remembers addr t s h
    → Remembers addr t s' h
same-Remembers addr t s s' h e r = record {
  unique = rw e r.unique;
  same = λ u le. rw e (r.same u le);
}

hears-Remembers :
    (addr : String) (t now : ℕ) (s : Service) (h : Option ℕ) (p : Peer)
    → (addr is "") ≡ false
    → t ≤ now
    → Remembers addr t s h
    → Remembers addr now (on_peer s p now) (if p.addr is addr then some now else h)
unfolding on_peer
hears-Remembers addr t now s h p named le r = record {
  unique = ground (arith, r.unique, insert-IsUnique p.addr now s.last_seen_addr r.unique);
  same = λ u le'. ground (
    arith,
    r.same u (omega arith),
    is_iff p.addr addr,
    lookup-insert addr p.addr now s.last_seen_addr,
  );
}

expiry-Remembers :
    (addr : String) (t now : ℕ) (s : Service) (h : Option ℕ)
    → t ≤ now
    → Remembers addr t s h
    → Remembers addr now (on_expiry s now) h
unfolding on_expiry
expiry-Remembers addr t now s h le r =
    let s' = record s { last_seen_addr = prune now s.last_seen_addr } in
    let e = report-addr s' (expired_of now s.last_seen) in
    record {
      unique = rw e (prune-IsUnique now s.last_seen_addr r.unique);
      same = λ u le'.
          rw e (lookup-prune now u addr s.last_seen_addr le' r.unique ∙ r.same u (omega arith));
    }

run-Remembers :
    (addr : String) (t u : ℕ) (s : Service) (h : Option ℕ) (xs : List Step)
    → (addr is "") ≡ false
    → IsOrdered t xs u
    → Remembers addr t s h
    → is_recent u (lookup addr (run s xs).last_seen_addr) ≡ is_recent u (last_heard addr h xs)
unfolding run step last_heard set_want_announce set_foreground expire_timer expire_orphan callback
    on_announce_tick on_announce_now
run-Remembers addr t u s h [] named o r = r.same u o
run-Remembers addr t u s h (hears p now ∷ xs) named o r =
    run-Remembers addr now u (on_peer s p now) (if p.addr is addr then some now else h) xs named o.1
      (hears-Remembers addr t now s h p named o.0 r)
run-Remembers addr t u s h (expiry now ∷ xs) named o r =
    run-Remembers addr now u (on_expiry s now) h xs named o.1
      (expiry-Remembers addr t now s h o.0 r)
run-Remembers addr t u s h (want b ∷ xs) named o r =
    run-Remembers addr t u (step s (want b)) h xs named o
      (same-Remembers addr t s _ h (ground arith) r)
run-Remembers addr t u s h (fg true ∷ xs) named o r =
    run-Remembers addr t u (step s (fg true)) h xs named o (same-Remembers addr t s _ h refl r)
run-Remembers addr t u s h (fg false ∷ xs) named o r =
    run-Remembers addr t u (step s (fg false)) h xs named o (same-Remembers addr t s _ h refl r)
run-Remembers addr t u s h (expires ∷ xs) named o r =
    run-Remembers addr t u (step s expires) h xs named o
      (same-Remembers addr t s _ h (ground arith) r)
run-Remembers addr t u s h (expires_orphan ∷ xs) named o r =
    run-Remembers addr t u (step s expires_orphan) h xs named o
      (same-Remembers addr t s _ h (ground arith) r)
run-Remembers addr t u s h (calls_back ∷ xs) named o r =
    run-Remembers addr t u (step s calls_back) h xs named o
      (same-Remembers addr t s _ h (ground arith) r)
run-Remembers addr t u s h (ticks ∷ xs) named o r =
    run-Remembers addr t u (step s ticks) h xs named o
      (same-Remembers addr t s _ h (ground arith) r)
run-Remembers addr t u s h (kicks ∷ xs) named o r =
    run-Remembers addr t u (step s kicks) h xs named o
      (same-Remembers addr t s _ h (ground arith) r)
run-Remembers addr t u s h (reads_peer ∷ xs) named o r =
    run-Remembers addr t u (step s reads_peer) h xs named o (same-Remembers addr t s _ h refl r)
run-Remembers addr t u s h (reads_gone ∷ xs) named o r =
    run-Remembers addr t u (step s reads_gone) h xs named o (same-Remembers addr t s _ h refl r)

-- From a new service, with steps in the order of the clock, an address that is not empty is present at the time `u` exactly if the last
-- announce from it lies within the grace period, whatever else has happened: the expiry ticks in
-- between make no difference.
pub run-present_addr :
    (addr : String) (t u : ℕ) (xs : List Step)
    → (addr is "") ≡ false
    → IsOrdered t xs u
    → present_addr (run new xs) addr u ≡ is_recent u (last_heard addr none xs)
unfolding present_addr new lookup
run-present_addr addr t u xs named o =
    present_recent (run new xs)
    ∙ run-Remembers addr t u new none xs named o (record { unique = tt; same = λ v le. refl })
  where
    present_recent :
        (s : Service) → present_addr s addr u ≡ is_recent u (lookup addr s.last_seen_addr)
    present_recent s = unfold present_addr in ground arith
