-- ===== src/Stmanager/Tests.antt =====
-- Runs of the process manager.
use we_sync.Base.{
  ℕ, ◌*◌, ◌<◌, Bool, true, false, List, [], ◌∷◌, none, some, ◌≡◌, refl, ◌⊎◌, leb, arith,
}
use we_sync.Stmanager.{
  idle, Outcome, System, Input, update, thread_mem, thread_pc, reap, is_current, is_aborted,
  launch_recorded, step, Event, pick, exit, reaped, init, Reach, start, later, is_running,
}
use we_sync.Stmanager.Latch.{in_start}
use we_sync.Stmanager.Exclusive.{start_exclusion}
use we_sync.Stmanager.Orphans.{no_orphan, rest_lem}
use we_sync.Stmanager.Track.{holds}
use we_sync.Stmanager.Wait.{Rounds, await_ready, wait_port_free, loops_end, after, start_deadline}

abbrev port_closed : Input
port_closed = record {
  call_stop = false;
  port_open = false;
  api_key_valid = false;
  launch_fails = false;
  after_deadline = false;
}

abbrev verified : Input
verified = record port_closed { port_open = true; api_key_valid = true }

abbrev stop_it : Input
stop_it = record port_closed { call_stop = true }

unfoldable run : List Event → System → System
unfolding step
run [] s = s
run (e ∷ es) s = run es (step s e)

run-Reach : (es : List Event) {s : System} → Reach s → Reach (run es s)
unfolding run
run-Reach [] r = r
run-Reach (e ∷ es) r = run-Reach es (later r e)

-- Thread 0 starts Syncthing, up to the success of `awaitReady`.
abbrev started : List Event
started =
    pick 0 port_closed
    ∷ pick 0 port_closed
    ∷ pick 0 port_closed
    ∷ pick 0 port_closed
    ∷ pick 0 port_closed
    ∷ pick 0 verified
    ∷ pick 0 port_closed
    ∷ []

started_runs : is_running (run started init).mem ≡ true
unfolding run step init update thread_mem thread_pc is_aborted is_current launch_recorded is_running
started_runs = refl

-- Thread 1 stops it; thread 2 starts while the process still answers, and adopts it; then it ends.
abbrev adopt_dying : List Event
adopt_dying =
    pick 1 stop_it
    ∷ pick 1 port_closed
    ∷ pick 2 port_closed
    ∷ pick 2 verified
    ∷ pick 2 verified
    ∷ pick 2 verified
    ∷ pick 1 port_closed
    ∷ exit 0
    ∷ reaped 0
    ∷ pick 1 port_closed
    ∷ pick 1 port_closed
    ∷ []

abbrev dying : System
dying = run adopt_dying (run started init)

dying_runs :
    (is_running dying.mem ≡ true)
    × (dying.mem.current ≡ none)
    × (dying.mem.alive 0 ≡ false)
    × (dying.mem.starting ≡ false)
unfolding run step init update thread_mem thread_pc is_aborted is_current launch_recorded is_running
    reap
dying_runs = (refl, refl, refl, refl)

abbrev one_start : System
one_start = run (pick 0 port_closed ∷ []) init

start_exclusion_example : ◌≡◌ {A = ℕ} 0 0
unfolding run step init update thread_mem thread_pc in_start
start_exclusion_example = start_exclusion (run-Reach (pick 0 port_closed ∷ []) start) 0 0 refl refl

no_orphan_example :
    (is_current (run started init).mem.current 0 ≡ true)
    ⊎ ((i : ℕ) × (holds 0 ((run started init).pc i) ≡ true))
unfolding run step init update thread_mem thread_pc is_aborted is_current launch_recorded
no_orphan_example = no_orphan (run-Reach started start) 0 refl

all_idle : (i : ℕ) → (run started init).pc i ≡ idle
unfolding run step init update thread_mem thread_pc is_aborted is_current launch_recorded
all_idle i = ground arith

rest_lem_example :
    ((run started init).mem.starting ≡ false)
    × ((c : ℕ)
        → (run started init).mem.alive c ≡ true
        → (is_current (run started init).mem.current c ≡ true)
          × (is_running (run started init).mem ≡ true))
rest_lem_example = rest_lem (run-Reach started start) all_idle

abbrev ended : System
ended = run (exit 0 ∷ []) (run started init)

-- A port that opens in the third round.
abbrev third : Rounds
third = record { began = 0; now = λ n. n * 600; port_open = λ n. leb 2 n; aborted = λ _. false }

loops_end_example :
    ((o : Outcome) × (await_ready third 62 ≡ some o))
    × ((b : Bool) × (wait_port_free third 12 ≡ some b))
loops_end_example = loops_end third (omega arith) (λ n. omega arith)

third_waits : (i : ℕ) → i < 2 → (third.port_open i ≡ false) × (after third start_deadline i ≡ false)
unfolding after
third_waits i h = (ground (arith, h), ground (arith, h))
