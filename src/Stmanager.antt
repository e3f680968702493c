-- ===== src/Stmanager.antt =====
-- internal/stmanager/manager.go: `Start`, `Stop`, `IsRunning` and the reaper of a launched process,
-- as threads whose steps interleave. A step is one section under `mu`, or one call between two such
-- sections. A launched `exec.Cmd` is a number. What the outside answers (the port, the key, the
-- clock, a launch that fails) is the input of a step.
pub mod Latch
pub mod Exclusive
pub mod Track
pub mod Orphans
pub mod Adopted
pub mod Wait
pub mod Config
mod Tests
use we_sync.Base.{
  ℕ, suc, ◌+◌, Bool, true, false, not, ◌&&◌, ◌||◌, Option, none, some, if◌then◌else◌, ◌==◌,
}

pub data Outcome : Type 0 where
  ok : Outcome
  start_failed : Outcome
  start_aborted : Outcome
  start_timed_out : Outcome

-- Who called `Stop`: the owner of the process manager, or `awaitReady` at its deadline.
pub data Caller : Type 0 where
  by_owner : Caller
  by_start : Caller

-- Where a thread stands.
pub data Pc : Type 0 where
  idle : Pc
  claimed : Pc  -- `Start` holds the latch, before the port is probed
  adopting : Pc  -- the instance on the port answered our key
  occupied : Pc  -- it did not: `killOurSyncthing` and `waitPortFree`
  launching : Pc  -- before `cmd.Start`
  spawned : (cmd : ℕ) → Pc  -- the process runs, not yet recorded
  awaiting : (cmd : ℕ) → Pc  -- head of the loop of `awaitReady`
  polling : (cmd : ℕ) → Pc  -- before its probe of the port
  returning : (result : Outcome) → Pc  -- before the deferred reset of the latch
  stop_called : (caller : Caller) → Pc
  stopping : (caller : Caller) (handle : Option ℕ) → Pc  -- `c` is taken
  exiting : (caller : Caller) (cmd : ℕ) → Pc  -- `c.Process.Wait()`
  sweeping : (caller : Caller) → Pc  -- before `killSyncthingByHome`

pub record Shared : Type 0 where
  pub current : Option ℕ
  pub running : Bool
  pub starting : Bool
  pub fresh : ℕ  -- the next `exec.Cmd`
  pub alive : ℕ → Bool  -- the process runs
  pub reaper : ℕ → Bool  -- a reaper waits for it

pub record System : Type 0 where
  pub mem : Shared
  pub pc : ℕ → Pc

unfoldable pub update {ℓ} : {A : Type ℓ} → (ℕ → A) → ℕ → A → ℕ → A
update f i x j = if j == i then x else f j

-- What the outside answers at a step, and whether an idle thread calls `Stop` or `Start`.
pub record Input : Type 0 where
  pub call_stop : Bool
  pub port_open : Bool
  pub api_key_valid : Bool
  pub launch_fails : Bool
  pub after_deadline : Bool

unfoldable pub is_current : Option ℕ → ℕ → Bool
is_current none cmd = false
is_current (some c) cmd = c == cmd

-- `aborted` in `awaitReady`.
unfoldable pub is_aborted : Shared → ℕ → Bool
unfolding is_current
is_aborted m cmd = not m.running || not (is_current m.current cmd)

unfoldable pub launch_recorded : Shared → ℕ → Shared
launch_recorded m cmd = record m {
  current = some cmd;
  running = true;
  reaper = update m.reaper cmd true;
}

-- The locked section of `Stop`; the handle is in the thread's place.
unfoldable pub stop_taken : Shared → Shared
stop_taken m = record m { current = none; running = false }

-- The next step of one thread.
unfoldable pub thread_mem : Input → Shared → Pc → Shared
unfolding launch_recorded stop_taken
thread_mem x m idle =
    if not x.call_stop && not (m.running || m.starting) then record m { starting = true } else m
thread_mem x m adopting = record m { running = true }
thread_mem x m launching =
    if x.launch_fails
    then m
    else record m { fresh = m.fresh + 1; alive = update m.alive m.fresh true }
thread_mem x m (spawned cmd) = launch_recorded m cmd
thread_mem x m (returning r) = record m { starting = false }
thread_mem x m (stop_called k) = stop_taken m
thread_mem x m claimed = m
thread_mem x m occupied = m
thread_mem x m (awaiting cmd) = m
thread_mem x m (polling cmd) = m
thread_mem x m (stopping k h) = m
thread_mem x m (exiting k cmd) = m
thread_mem x m (sweeping k) = m

unfoldable pub thread_pc : Input → Shared → Pc → Pc
unfolding is_aborted
thread_pc x m idle =
    if x.call_stop
    then stop_called by_owner
    else (if m.running || m.starting then idle else claimed)
thread_pc x m claimed =
    if x.port_open then (if x.api_key_valid then adopting else occupied) else launching
thread_pc x m adopting = returning ok
thread_pc x m occupied = launching
thread_pc x m launching = if x.launch_fails then returning start_failed else spawned m.fresh
thread_pc x m (spawned cmd) = awaiting cmd
thread_pc x m (awaiting cmd) = if is_aborted m cmd then returning start_aborted else polling cmd
thread_pc x m (polling cmd) =
    if x.port_open
    then returning ok
    else (if x.after_deadline then stop_called by_start else awaiting cmd)
thread_pc x m (returning r) = idle
thread_pc x m (stop_called k) = stopping k m.current
thread_pc x m (stopping k none) = sweeping k
thread_pc x m (stopping k (some c)) = exiting k c
thread_pc x m (exiting k cmd) = if m.alive cmd then exiting k cmd else sweeping k
thread_pc x m (sweeping by_owner) = idle
thread_pc x m (sweeping by_start) = returning start_timed_out

-- The body of the reaper, once `cmd.Wait` has returned.
unfoldable pub reap : Shared → ℕ → Shared
unfolding is_current
reap m cmd =
    if m.reaper cmd && not (m.alive cmd)
    then (record m {
      current = if is_current m.current cmd then none else m.current;
      running = if is_current m.current cmd then false else m.running;
      reaper = update m.reaper cmd false;
    })
    else m

pub data Event : Type 0 where
  pick : (thread : ℕ) (input : Input) → Event
  exit : (cmd : ℕ) → Event  -- a process ends: by itself, or killed
  reaped : (cmd : ℕ) → Event

unfoldable pub step : System → Event → System
unfolding thread_mem thread_pc reap
step s (pick i x) = record {
  mem = thread_mem x s.mem (s.pc i);
  pc = update s.pc i (thread_pc x s.mem (s.pc i));
}
step s (exit cmd) = record s { mem = record s.mem { alive = update s.mem.alive cmd false } }
step s (reaped cmd) = record s { mem = reap s.mem cmd }

unfoldable pub init : System
init = record {
  mem = record {
    current = none;
    running = false;
    starting = false;
    fresh = 0;
    alive = λ _. false;
    reaper = λ _. false;
  };
  pc = λ _. idle;
}

-- The states that some interleaving leads to.
pub data Reach : System → Type 0 where
  start : Reach init
  later : {s : System} → Reach s → (e : Event) → Reach (step s e)

unfoldable pub is_running : Shared → Bool
is_running m = m.running
