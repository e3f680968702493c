-- ===== src/Stmanager/Adopted.antt =====
-- internal/stmanager/manager.go: an adopted instance, for which no process is recorded.
use we_sync.Base.{Bool, true, false, none, ◌≡◌, refl, arith, not_both}
use we_sync.Stmanager.{
  Pc, idle, claimed, adopting, occupied, launching, spawned, awaiting, polling, returning,
  stop_called, stopping, exiting, sweeping, Shared, System, Input, thread_mem, reap, is_current,
  step, Event, pick, exit, reaped, Reach, is_running,
}
use we_sync.Stmanager.Latch.{in_launch}
use we_sync.Stmanager.Exclusive.{reach-Exclusive}

-- The step is the locked section of a `Stop`.
unfoldable pub is_stop : System → Event → Bool
is_stop s (pick i x) = elim (s.pc i) [ stop_called k ↦ true | _ ↦ false ]
is_stop s (exit c) = false
is_stop s (reaped c) = false

adopted-thread :
    (x : Input) (m : Shared) (p : Pc)
    → (elim p as (λ _. Bool) [ stop_called k ↦ true | _ ↦ false ]) ≡ false
    → (in_launch p ≡ true → m.running ≡ false)
    → m.running ≡ true
    → m.current ≡ none
    → ((thread_mem x m p).running ≡ true) × ((thread_mem x m p).current ≡ none)
unfolding thread_mem in_launch
adopted-thread x m idle n q h k = (ground (arith, h), ground (arith, k))
adopted-thread x m claimed n q h k = (h, k)
adopted-thread x m adopting n q h k = (refl, k)
adopted-thread x m occupied n q h k = (h, k)
adopted-thread x m launching n q h k = absurd (not_both h (q refl))
adopted-thread x m (spawned d) n q h k = absurd (not_both h (q refl))
adopted-thread x m (awaiting d) n q h k = (h, k)
adopted-thread x m (polling d) n q h k = (h, k)
adopted-thread x m (returning r) n q h k = (h, k)
adopted-thread x m (stop_called c) n q h k = ground (arith, n)
adopted-thread x m (stopping c d) n q h k = (h, k)
adopted-thread x m (exiting c d) n q h k = (h, k)
adopted-thread x m (sweeping c) n q h k = (h, k)

-- In a reachable state in which an instance was adopted (`running`, and no process recorded), every
-- step but the locked section of a `Stop` leaves it so: the end of a process, the adopted one's
-- included, a reaper and another `Start` do not reset `running`.
pub adopted_sticks :
    {s : System}
    → Reach s
    → s.mem.running ≡ true
    → s.mem.current ≡ none
    → (e : Event) → is_stop s e ≡ false
    → (is_running (step s e).mem ≡ true) × ((step s e).mem.current ≡ none)
unfolding step is_stop is_running reap is_current
adopted_sticks {s} r h k (pick i x) n =
    adopted-thread x s.mem (s.pc i) n ((reach-Exclusive r).quiet i) h k
adopted_sticks r h k (exit c) n = (h, k)
adopted_sticks r h k (reaped c) n = (ground (arith, h, k), ground (arith, h, k))
