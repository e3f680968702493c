-- ===== src/Peerwire/Lifecycle/Sound.antt =====
-- What holds of a connection at each statement.
use we_sync.Base.{
  ◌≡◌, refl, Bool, true, false, not, ◌&&◌, ◌||◌, List, [], ◌∷◌, is_some, if◌then◌else◌, arith,
}
use we_sync.Peerwire.Lifecycle.{
  Phase, top, dialing, dialed, linked, greeting, starting, reading, leaving, hiding, cancelling,
  joining, joining_ping, clearing, waiting, ended, Conn, new_peer_conn, is_open, close, advance,
  dial_ended, read_ended, waited, wait_closed, Step, step, run,
}

-- Nothing is left of a `connect`.
abbrev pub is_bare : Conn → Bool
is_bare c = not (is_some c.socket || c.stored || c.connected || c.pinging || c.writing)

-- No goroutine runs, and the socket stands, stored and announced as told.
abbrev pub is_quiet : Bool → Bool → Conn → Bool
is_quiet stored connected c =
    is_some c.socket
    && not (c.pinging || c.writing)
    && (if stored then c.stored else not c.stored)
    && (if connected then c.connected else not c.connected)

abbrev pub is_held : Bool → Bool → Conn → Bool
is_held connected cancelled c =
    is_some c.socket
    && c.stored
    && (if connected then c.connected else not c.connected)
    && (if cancelled then c.cancelled else not c.cancelled)

abbrev pub sound_at : Phase → Conn → Bool
sound_at top c = is_bare c
sound_at dialing c = is_bare c
sound_at dialed c = is_quiet false false c && is_open c.socket
sound_at linked c = is_quiet true false c
sound_at greeting c = is_quiet true true c
sound_at starting c = is_quiet true true c
sound_at reading c = is_held true false c && (c.writing || not (is_open c.socket))
sound_at leaving c = is_held true false c
sound_at hiding c = is_held true false c && not (is_open c.socket)
sound_at cancelling c = is_held false false c && not (is_open c.socket)
sound_at joining c = is_held false true c && not (is_open c.socket)
sound_at joining_ping c = is_held false true c && not (is_open c.socket || c.writing)
sound_at clearing c = is_held false true c && not (is_open c.socket || c.writing || c.pinging)
sound_at waiting c = is_bare c
sound_at ended c = is_bare c

unfoldable pub is_sound : Conn → Bool
is_sound c = sound_at c.phase c

pub step_sound : (c : Conn) (s : Step) → is_sound c ≡ true → is_sound (step c s) ≡ true
unfolding step close advance dial_ended read_ended waited wait_closed is_sound
step_sound c s h = ground (arith, h)

run_sound_from : (c : Conn) (ss : List Step) → is_sound c ≡ true → is_sound (run c ss) ≡ true
unfolding run
run_sound_from c [] h = h
run_sound_from c (s ∷ ss) h = run_sound_from (step c s) ss (step_sound c s h)

-- However the goroutines and the network interleave, a connection that waits for a dial or for its
-- backoff has nothing left of the dial before: no socket is kept, it does not count as connected, and
-- neither goroutine of the old socket runs. While it reads, the socket is stored, it counts as
-- connected, and the goroutine that closes the socket runs unless the socket is closed.
pub run_sound : (ss : List Step) → is_sound (run new_peer_conn ss) ≡ true
unfolding new_peer_conn is_sound
run_sound ss = run_sound_from new_peer_conn ss refl
