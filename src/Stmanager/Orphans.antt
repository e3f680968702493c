-- ===== src/Stmanager/Orphans.antt =====
-- internal/stmanager/manager.go: what holds of the launched processes in every reachable state.
use we_sync.Base.{
  ℕ, Bool, true, false, ◌||◌, none, ◌==◌, ◌≡◌, sym, ap, ◌∙◌, ◌⊎◌, inl, inr, Bool-cases, arith,
  not_both, eqb→eq,
}
use we_sync.Stmanager.{
  idle, Shared, System, Input, update, thread_mem, thread_pc, reap, is_current, step, Event, pick,
  exit, reaped, init, Reach, start, later, is_running,
}
use we_sync.Stmanager.Latch.{in_start, reap-starting}
use we_sync.Stmanager.Exclusive.{update_same, update_other, Exclusive, reach-Exclusive}
use we_sync.Stmanager.Track.{holds, born_lem, kept_lem, watched_lem, held_lem}

-- A process is recorded, or in the hands of a thread.
abbrev pub Kept : System → ℕ → Type 0
Kept s c = (is_current s.mem.current c ≡ true) ⊎ ((i : ℕ) × (holds c (s.pc i) ≡ true))

pub record Tracked (s : System) : Type 0 where
  pub kept : (c : ℕ) → s.mem.alive c ≡ true → Kept s c
  pub watched : (c : ℕ) → is_current s.mem.current c ≡ true → s.mem.reaper c ≡ true
  pub held : s.mem.starting ≡ true → (i : ℕ) × (in_start (s.pc i) ≡ true)

module _ (s : System) (i : ℕ) (x : Input) where
  here_lem : (step s (pick i x)).pc i ≡ thread_pc x s.mem (s.pc i)
  unfolding step
  here_lem = update_same s.pc i i _ (ground arith)

  -- What the picked thread or the record keeps, the state keeps.
  picked-Kept :
      (c : ℕ)
      → (is_current (thread_mem x s.mem (s.pc i)).current c || holds c (thread_pc x s.mem (s.pc i)))
        ≡ true
      → Kept (step s (pick i x)) c
  unfolding step
  picked-Kept c h = elim (Bool-cases (is_current (thread_mem x s.mem (s.pc i)).current c)) [
    | inl e ↦ inl e
    | inr e ↦ inr (i, ap (holds c) here_lem ∙ ground (arith, e, h))
  ]

  own-Kept :
      Exclusive s
      → (c : ℕ) → s.mem.alive c ≡ true
      → (is_current s.mem.current c || holds c (s.pc i)) ≡ true
      → Kept (step s (pick i x)) c
  own-Kept inv c a h = picked-Kept c (kept_lem x s.mem c (s.pc i) a (inv.quiet i) inv.owned h)

  step-Kept : Exclusive s → (c : ℕ) → s.mem.alive c ≡ true → Kept s c → Kept (step s (pick i x)) c
  unfolding step
  step-Kept inv c a (inl h) = own-Kept inv c a (ground (arith, h))
  step-Kept inv c a (inr (j, h)) = elim (Bool-cases (j == i)) [
    | inl e ↦
        let d : holds c (s.pc i) ≡ true = ap (λ t. holds c (s.pc t)) (sym (eqb→eq j i e)) ∙ h in
        own-Kept inv c a (ground (arith, d))
    | inr e ↦ inr (j, ap (holds c) (update_other s.pc i j _ e) ∙ h)
  ]

  alive-Kept :
      Exclusive s
      → Tracked s
      → (c : ℕ) → (thread_mem x s.mem (s.pc i)).alive c ≡ true
      → Kept (step s (pick i x)) c
  alive-Kept inv tr c h = elim (born_lem x s.mem c (s.pc i) h) [
    | inl a ↦ step-Kept inv c a (tr.kept c a)
    | inr k ↦ inr (i, ap (holds c) here_lem ∙ k)
  ]

  held_after :
      Tracked s
      → (thread_mem x s.mem (s.pc i)).starting ≡ true
      → (j : ℕ) × (in_start ((step s (pick i x)).pc j) ≡ true)
  unfolding step
  held_after tr h = elim (held_lem x s.mem (s.pc i) h) [
    | inl k ↦ (i, ap in_start here_lem ∙ k)
    | inr (k, n) ↦
        let (j, l) = tr.held k in
        elim (Bool-cases (j == i)) [
          | inl e ↦ absurd (not_both (ap (λ t. in_start (s.pc t)) (sym (eqb→eq j i e)) ∙ l) n)
          | inr e ↦ (j, ap in_start (update_other s.pc i j _ e) ∙ l)
        ]
  ]

-- The reaper of another process leaves the recorded one recorded.
reap-current :
    (m : Shared) (d c : ℕ)
    → m.alive c ≡ true
    → is_current m.current c ≡ true
    → is_current (reap m d).current c ≡ true
unfolding reap is_current
reap-current m d c a h = ground (arith, a, h)

reap-watched :
    (m : Shared) (d c : ℕ)
    → (is_current m.current c ≡ true → m.reaper c ≡ true)
    → is_current (reap m d).current c ≡ true
    → (reap m d).reaper c ≡ true
unfolding reap is_current update
reap-watched m d c k h = ground (arith, k, h)

reap-alive : (m : Shared) (d c : ℕ) → (reap m d).alive c ≡ m.alive c
unfolding reap
reap-alive m d c = ground arith

exit-alive : (f : ℕ → Bool) (d c : ℕ) → update f d false c ≡ true → f c ≡ true
unfolding update
exit-alive f d c h = ground (arith, h)

step-Tracked : (s : System) (e : Event) → Exclusive s → Tracked s → Tracked (step s e)
unfolding step
step-Tracked s (pick i x) inv tr = record {
  kept = alive-Kept s i x inv tr;
  watched = λ c. watched_lem x s.mem c (s.pc i) (tr.watched c);
  held = held_after s i x tr;
}
step-Tracked s (exit d) inv tr = record {
  kept = λ c h. tr.kept c (exit-alive s.mem.alive d c h);
  watched = tr.watched;
  held = tr.held;
}
step-Tracked s (reaped d) inv tr = record {
  kept = λ c h.
      let a : s.mem.alive c ≡ true = sym (reap-alive s.mem d c) ∙ h in
      elim (tr.kept c a) [ inl k ↦ inl (reap-current s.mem d c a k) | inr k ↦ inr k ];
  watched = λ c. reap-watched s.mem d c (tr.watched c);
  held = λ h. tr.held (sym (reap-starting s.mem d) ∙ h);
}

pub reach-Tracked : {s : System} → Reach s → Tracked s
unfolding init is_current
reach-Tracked start = record {
  kept = λ c h. ground (arith, h);
  watched = λ c h. ground (arith, h);
  held = λ h. ground (arith, h);
}
reach-Tracked (later r e) = step-Tracked _ e (reach-Exclusive r) (reach-Tracked r)

-- Whatever the interleaving of `Start`, `Stop`, exits and reapers: a launched process that still
-- runs is the recorded one, or some thread has just launched it or is stopping it. None is forgotten.
pub no_orphan :
    {s : System}
    → Reach s
    → (c : ℕ) → s.mem.alive c ≡ true
    → (is_current s.mem.current c ≡ true) ⊎ ((i : ℕ) × (holds c (s.pc i) ≡ true))
no_orphan r = (reach-Tracked r).kept

rest-free : {s : System} → Reach s → ((i : ℕ) → s.pc i ≡ idle) → s.mem.starting ≡ false
unfolding in_start
rest-free {s} r quiet = elim (Bool-cases s.mem.starting) [
  | inl h ↦ let (i, k) = (reach-Tracked r).held h in absurd (not_both k (ap in_start (quiet i)))
  | inr h ↦ h
]

rest-recorded :
    {s : System}
    → Reach s
    → ((i : ℕ) → s.pc i ≡ idle)
    → (c : ℕ) → Kept s c
    → (is_current s.mem.current c ≡ true) × (is_running s.mem ≡ true)
unfolding holds is_running is_current
rest-recorded r quiet c (inl k) = (k, (reach-Exclusive r).owned (ground (arith, k)))
rest-recorded r quiet c (inr (i, k)) = absurd (not_both k (ap (holds c) (quiet i)))

-- When every thread is idle, in whatever order things happened, the latch is free, and a launched
-- process that still runs is the recorded one and `IsRunning` answers true.
pub rest_lem :
    {s : System}
    → Reach s
    → ((i : ℕ) → s.pc i ≡ idle)
    → (s.mem.starting ≡ false)
      × ((c : ℕ)
          → s.mem.alive c ≡ true
          → (is_current s.mem.current c ≡ true) × (is_running s.mem ≡ true))
rest_lem r quiet = (rest-free r quiet, λ c a. rest-recorded r quiet c (no_orphan r c a))

-- In every reachable state, once the recorded process has ended, by itself or killed, its reaper's
-- step clears the record and `running`, so that a later `Start` launches again.
pub death_noticed :
    {s : System}
    → Reach s
    → (c : ℕ) → is_current s.mem.current c ≡ true
    → s.mem.alive c ≡ false
    → ((step s (reaped c)).mem.current ≡ none) × (is_running (step s (reaped c)).mem ≡ false)
unfolding step reap is_running
death_noticed {s} r c k d = (
  ground (arith, k, d, (reach-Tracked r).watched c k),
  ground (arith, k, d, (reach-Tracked r).watched c k),
)
