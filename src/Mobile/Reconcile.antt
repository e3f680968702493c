-- ===== src/Mobile/Reconcile.antt =====
-- mobile/gate_reconcile.go: the loop that starts and stops Syncthing. `reconcileOnce` gives up the
-- lock between its parts, so each part that runs under one hold of the lock is a function of its
-- own: `begin`, `extend`, and `drive` with `notify_host`.
use we_sync.Base.{
  ℕ, Bool, true, false, not, ◌&&◌, ◌||◌, Option, none, some, String, if◌then◌else◌, ltb, ◌is◌,
  text_append,
}
use we_sync.Mobile.Decision.{
  Snapshot, ProbeResult, session_open, keepalive_busy, next_session_end, desired_running,
}
use we_sync.Mobile.Gate.{Gate, snapshot, reason_string, emit_event, notify_host}

-- The gate, and whether the Syncthing process runs (`stmanager.IsRunning`).
pub record World : Type 0 where
  pub gate : Gate
  pub running : Bool

-- What one run of `reconcileOnce` sees of the outside: the clock at its three readings, the answer
-- of the probe, and the error of `stmanager.Start`, if it is called and fails.
pub record Env : Type 0 where
  pub now : ℕ
  pub probe : ProbeResult
  pub probed_at : ℕ
  pub decided_at : ℕ
  pub start_error : Option String

-- The first hold of the lock.
unfoldable pub begin : Gate → Option Snapshot
begin g = if g.st_exe_path is "" then none else some (snapshot g)

-- The second one: the answer of the probe moves the session's end.
unfoldable pub extend : Gate → Env → Gate
extend g e = record g {
  session_ends_at =
      next_session_end e.probed_at g.session_started_at g.session_ends_at (keepalive_busy e.probe)
        e.probe.connected;
}

-- The answers of one lookup of `probeST`: `none` is an error.
unfoldable pub probe_st : Bool → Option Bool → Option Bool → Option Bool → ProbeResult
probe_st client busy behind connected =
    if client
    then record {
      folder_busy = elim busy [ none ↦ true | some b ↦ b ];
      peer_behind = elim behind [ none ↦ true | some b ↦ b ];
      connected = elim connected [ none ↦ false | some b ↦ b ];
    }
    else record { folder_busy = false; peer_behind = true; connected = false }

-- Start or stop the process, as the decision says.
unfoldable pub drive : World → Snapshot → Bool → Option String → World
unfolding emit_event
drive w snap want start_error =
    if want && not w.running
    then (elim start_error [
      | some e ↦ record w { gate = emit_event w.gate "error" (text_append "ST start failed: " e) }
      | none ↦ record w {
        gate = emit_event w.gate "st_start" (text_append "ST started — " (reason_string snap));
        running = true;
      }
    ])
    else if not want && w.running
    then record w {
      gate = emit_event w.gate "st_stop" (text_append "ST stopped — " (reason_string snap));
      running = false;
    }
    else w

module _ (fold : ℕ → ℕ) where
  -- The part after the last snapshot.
  unfoldable pub finish : World → Snapshot → ℕ → Option String → World
  unfolding notify_host
  finish w snap now start_error =
      let want = desired_running fold snap now in
      let w' = drive w snap want start_error in record w' { gate = notify_host w'.gate want }

  -- `reconcileOnce`, with nothing else between its parts.
  unfoldable pub reconcile_once : World → Bool → Env → World
  unfolding begin extend
  reconcile_once w poll e = elim (begin w.gate) [
    | none ↦ w
    | some snap ↦
        if poll && session_open snap e.now
        then finish (record w { gate = extend w.gate e }) (snapshot (extend w.gate e)) e.decided_at
            e.start_error
        else finish w snap e.now e.start_error
  ]

abbrev take_kick : Gate → Gate
take_kick g = record g { kick = elim g.kick [ none ↦ none | some _ ↦ some false ] }

-- The loop: the world, and whether the poll ticker runs.
pub record Loop : Type 0 where
  pub world : World
  pub ticker : Bool

unfoldable pub keep_polling : Gate → ℕ → Bool
keep_polling g now = ltb now g.session_ends_at || ltb now g.foreground_until

-- One turn of `reconcileLoop`, woken by the ticker, or by a kick, which it takes from the channel;
-- `after` is the clock when the turn ends.
unfoldable pub loop_turn : (ℕ → ℕ) → Loop → Bool → Env → ℕ → Loop
unfolding reconcile_once
loop_turn fold l poll e after =
    let woken = if poll then l.world else record (l.world) { gate = take_kick l.world.gate } in
    let w = reconcile_once fold woken poll e in
    record { world = w; ticker = keep_polling w.gate after }
