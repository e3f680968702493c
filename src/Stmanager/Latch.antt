-- ===== src/Stmanager/Latch.antt =====
-- internal/stmanager/manager.go: the start latch (`starting` and `running`).
use we_sync.Base.{ℕ, Bool, true, false, ◌||◌, none, some, ◌≡◌, refl, is_some, arith}
use we_sync.Stmanager.{
  Pc, idle, claimed, adopting, occupied, launching, spawned, awaiting, polling, returning,
  stop_called, stopping, exiting, sweeping, by_owner, by_start, Caller, Shared, Input, thread_mem,
  thread_pc, reap,
}

abbrev pub is_by_start : Caller → Bool
is_by_start by_owner = false
is_by_start by_start = true

-- A thread between the claim of the latch and its deferred reset.
unfoldable pub in_start : Pc → Bool
in_start idle = false
in_start claimed = true
in_start adopting = true
in_start occupied = true
in_start launching = true
in_start (spawned _) = true
in_start (awaiting _) = true
in_start (polling _) = true
in_start (returning _) = true
in_start (stop_called k) = is_by_start k
in_start (stopping k _) = is_by_start k
in_start (exiting k _) = is_by_start k
in_start (sweeping k) = is_by_start k

-- Before the launched process is recorded.
unfoldable pub in_launch : Pc → Bool
in_launch claimed = true
in_launch adopting = true
in_launch occupied = true
in_launch launching = true
in_launch (spawned _) = true
in_launch _ = false

pub in_launch-in_start : (p : Pc) → in_launch p ≡ true → in_start p ≡ true
unfolding in_launch in_start
in_launch-in_start p h = ground (arith, h)

-- A thread enters `Start` only while nobody holds the latch and no process runs.
pub enter_lem :
    (x : Input) (m : Shared) (p : Pc)
    → in_start (thread_pc x m p) ≡ true
    → in_start p ≡ false
    → (m.running || m.starting) ≡ false
unfolding thread_pc in_start
enter_lem x m p h n = ground (arith, h, n)

-- Its latch is set while it is in `Start`.
pub hold_lem :
    (x : Input) (m : Shared) (p : Pc)
    → in_start (thread_pc x m p) ≡ true
    → (in_start p ≡ true → m.starting ≡ true)
    → (thread_mem x m p).starting ≡ true
unfolding thread_pc thread_mem in_start
hold_lem x m idle h k = ground (arith, h)
hold_lem x m claimed h k = k refl
hold_lem x m adopting h k = k refl
hold_lem x m occupied h k = k refl
hold_lem x m launching h k = ground (arith, k refl)
hold_lem x m (spawned c) h k = k refl
hold_lem x m (awaiting c) h k = k refl
hold_lem x m (polling c) h k = k refl
hold_lem x m (returning r) h k = ground (arith, h)
hold_lem x m (stop_called k') h k = k h
hold_lem x m (stopping k' none) h k = k h
hold_lem x m (stopping k' (some c)) h k = k h
hold_lem x m (exiting k' c) h k = k (ground (arith, h))
hold_lem x m (sweeping by_owner) h k = ground (arith, h)
hold_lem x m (sweeping by_start) h k = k refl

-- A thread outside `Start` neither resets the latch nor sets `running`.
pub outside_lem :
    (x : Input) (m : Shared) (p : Pc)
    → in_start p ≡ false
    → (m.starting ≡ true → (thread_mem x m p).starting ≡ true)
      × (m.running ≡ false → (thread_mem x m p).running ≡ false)
unfolding thread_mem in_start
outside_lem x m idle h = (λ k. ground (arith, k), λ k. ground (arith, k))
outside_lem x m claimed h = (λ k. k, λ k. k)
outside_lem x m adopting h = ground (arith, h)
outside_lem x m occupied h = (λ k. k, λ k. k)
outside_lem x m launching h = ground (arith, h)
outside_lem x m (spawned c) h = ground (arith, h)
outside_lem x m (awaiting c) h = (λ k. k, λ k. k)
outside_lem x m (polling c) h = (λ k. k, λ k. k)
outside_lem x m (returning r) h = ground (arith, h)
outside_lem x m (stop_called k') h = (λ k. k, λ k. refl)
outside_lem x m (stopping k' c) h = (λ k. k, λ k. k)
outside_lem x m (exiting k' c) h = (λ k. k, λ k. k)
outside_lem x m (sweeping k') h = (λ k. k, λ k. k)

-- Nothing runs before the launched process is recorded.
pub launch_lem :
    (x : Input) (m : Shared) (p : Pc)
    → in_launch (thread_pc x m p) ≡ true
    → (in_launch p ≡ true → m.running ≡ false)
    → (thread_mem x m p).running ≡ false
unfolding thread_pc thread_mem in_launch
launch_lem x m p h k = ground (arith, h, k)

-- A recorded process is `running`.
pub owned_lem :
    (x : Input) (m : Shared) (p : Pc)
    → (is_some m.current ≡ true → m.running ≡ true)
    → is_some (thread_mem x m p).current ≡ true
    → (thread_mem x m p).running ≡ true
unfolding thread_mem
owned_lem x m idle k h = ground (arith, k, h)
owned_lem x m claimed k h = k h
owned_lem x m adopting k h = refl
owned_lem x m occupied k h = k h
owned_lem x m launching k h = ground (arith, k, h)
owned_lem x m (spawned c) k h = refl
owned_lem x m (awaiting c) k h = k h
owned_lem x m (polling c) k h = k h
owned_lem x m (returning r) k h = k h
owned_lem x m (stop_called k') k h = ground (arith, h)
owned_lem x m (stopping k' c) k h = k h
owned_lem x m (exiting k' c) k h = k h
owned_lem x m (sweeping k') k h = k h

pub owned-reap :
    (m : Shared) (c : ℕ)
    → (is_some m.current ≡ true → m.running ≡ true)
    → is_some (reap m c).current ≡ true
    → (reap m c).running ≡ true
unfolding reap
owned-reap m c k h = ground (arith, k, h)

pub reap-running : (m : Shared) (c : ℕ) → m.running ≡ false → (reap m c).running ≡ false
unfolding reap
reap-running m c h = ground (arith, h)

pub reap-starting : (m : Shared) (c : ℕ) → (reap m c).starting ≡ m.starting
unfolding reap
reap-starting m c = ground arith
