-- ===== src/Stmanager/Track.antt =====
-- internal/stmanager/manager.go: no launched process is forgotten.
use we_sync.Base.{
  ℕ, Bool, true, false, ◌||◌, none, some, ◌==◌, ◌≡◌, refl, ◌⊎◌, inl, inr, is_some, arith,
}
use we_sync.Stmanager.{
  Pc, idle, claimed, adopting, occupied, launching, spawned, awaiting, polling, returning,
  stop_called, stopping, exiting, sweeping, by_owner, by_start, Shared, Input, update, thread_mem,
  thread_pc, is_current,
}
use we_sync.Stmanager.Latch.{in_start, in_launch}

-- A thread that has launched the process and not yet recorded it, or that is stopping it.
unfoldable pub holds : ℕ → Pc → Bool
holds c (spawned d) = d == c
holds c (stopping k (some d)) = d == c
holds c (exiting k d) = d == c
holds c _ = false

module _ (x : Input) (m : Shared) (c : ℕ) where
  -- A process that runs did so before, or was launched by this step.
  pub born_lem :
      (p : Pc)
      → (thread_mem x m p).alive c ≡ true
      → (m.alive c ≡ true) ⊎ (holds c (thread_pc x m p) ≡ true)
  unfolding thread_mem thread_pc holds update
  born_lem idle h = inl (ground (arith, h))
  born_lem claimed h = inl h
  born_lem adopting h = inl h
  born_lem occupied h = inl h
  born_lem launching h = ground (arith, h)
  born_lem (spawned d) h = inl h
  born_lem (awaiting d) h = inl h
  born_lem (polling d) h = inl h
  born_lem (returning r) h = inl h
  born_lem (stop_called k) h = inl h
  born_lem (stopping k d) h = inl h
  born_lem (exiting k d) h = inl h
  born_lem (sweeping k) h = inl h

  -- A step that gives up the recorded process, or the held one, takes the other role.
  pub kept_lem :
      (p : Pc)
      → m.alive c ≡ true
      → (in_launch p ≡ true → m.running ≡ false)
      → (is_some m.current ≡ true → m.running ≡ true)
      → (is_current m.current c || holds c p) ≡ true
      → (is_current (thread_mem x m p).current c || holds c (thread_pc x m p)) ≡ true
  unfolding thread_mem thread_pc holds in_launch is_current
  kept_lem idle a q o h = ground (arith, h)
  kept_lem claimed a q o h = ground (arith, h)
  kept_lem adopting a q o h = ground (arith, h)
  kept_lem occupied a q o h = ground (arith, h)
  kept_lem launching a q o h = ground (arith, h)
  kept_lem (spawned d) a q o h = ground (arith, h, o, q refl)
  kept_lem (awaiting d) a q o h = ground (arith, h)
  kept_lem (polling d) a q o h = ground (arith, h)
  kept_lem (returning r) a q o h = ground (arith, h)
  kept_lem (stop_called k) a q o h = ground (arith, h)
  kept_lem (stopping k none) a q o h = ground (arith, h)
  kept_lem (stopping k (some d)) a q o h = ground (arith, h)
  kept_lem (exiting k d) a q o h = ground (arith, h, a)
  kept_lem (sweeping by_owner) a q o h = ground (arith, h)
  kept_lem (sweeping by_start) a q o h = ground (arith, h)

  pub watched_lem :
      (p : Pc)
      → (is_current m.current c ≡ true → m.reaper c ≡ true)
      → is_current (thread_mem x m p).current c ≡ true
      → (thread_mem x m p).reaper c ≡ true
  unfolding thread_mem is_current update
  watched_lem idle k h = ground (arith, k, h)
  watched_lem claimed k h = k h
  watched_lem adopting k h = k h
  watched_lem occupied k h = k h
  watched_lem launching k h = ground (arith, k, h)
  watched_lem (spawned d) k h = ground (arith, h)
  watched_lem (awaiting d) k h = k h
  watched_lem (polling d) k h = k h
  watched_lem (returning r) k h = k h
  watched_lem (stop_called k') k h = ground (arith, h)
  watched_lem (stopping k' d) k h = k h
  watched_lem (exiting k' d) k h = k h
  watched_lem (sweeping k') k h = k h

-- The latch that is set after a step is held by its thread, or was held by another.
pub held_lem :
    (x : Input) (m : Shared) (p : Pc)
    → (thread_mem x m p).starting ≡ true
    → (in_start (thread_pc x m p) ≡ true) ⊎ ((m.starting ≡ true) × (in_start p ≡ false))
unfolding thread_mem thread_pc in_start
held_lem x m idle h = ground (arith, h)
held_lem x m claimed h = inl (ground arith)
held_lem x m adopting h = inl refl
held_lem x m occupied h = inl refl
held_lem x m launching h = inl (ground arith)
held_lem x m (spawned d) h = inl refl
held_lem x m (awaiting d) h = inl (ground arith)
held_lem x m (polling d) h = inl (ground arith)
held_lem x m (returning r) h = ground (arith, h)
held_lem x m (stop_called by_owner) h = inr (h, refl)
held_lem x m (stop_called by_start) h = inl refl
held_lem x m (stopping by_owner d) h = inr (h, refl)
held_lem x m (stopping by_start none) h = inl refl
held_lem x m (stopping by_start (some d)) h = inl refl
held_lem x m (exiting by_owner d) h = inr (h, refl)
held_lem x m (exiting by_start d) h = inl (ground arith)
held_lem x m (sweeping by_owner) h = inr (h, refl)
held_lem x m (sweeping by_start) h = inl refl
