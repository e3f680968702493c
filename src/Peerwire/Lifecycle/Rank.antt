-- ===== src/Peerwire/Lifecycle/Rank.antt =====
-- How near a connection is to its end, once it is closed, and the Hellos that are still to come.
use we_sync.Base.{
  ℕ, ◌+◌, ◌≤◌, ◌<◌, ◌≡◌, ◌⊎◌, Bool, true, false, List, [], ◌∷◌, if◌then◌else◌, arith,
}
use we_sync.Peerwire.Lifecycle.{
  Phase, top, dialing, dialed, linked, greeting, starting, reading, leaving, hiding, cancelling,
  joining, joining_ping, clearing, waiting, ended, Conn, is_open, close, advance, dial_ended,
  read_ended, waited, wait_closed, Step, advances, dial_ends, read_closed, writer_closes,
  writer_cancelled, pinger_stops, wait_done, step, run,
}
use we_sync.Peerwire.Lifecycle.Sound.{is_sound}

-- How many steps are left at most before the end, apart from those of the goroutines.
abbrev left : Phase → ℕ
left top = 1
left dialing = 16
left dialed = 14
left linked = 13
left greeting = 12
left starting = 11
left reading = 8
left leaving = 7
left hiding = 6
left cancelling = 5
left joining = 4
left joining_ping = 3
left clearing = 2
left waiting = 2
left ended = 0

abbrev one_if : Bool → ℕ
one_if true = 1
one_if false = 0

unfoldable pub rank : Conn → ℕ
rank c = left c.phase + one_if c.pinging + one_if c.writing + one_if (is_open c.socket)

-- A step changes nothing, or brings the end nearer.
abbrev pub Nears : Conn → Conn → Type 0
Nears c c' = (c' ≡ c) ⊎ (rank c' < rank c)

pub step-done : (c : Conn) (s : Step) → c.done ≡ true → (step c s).done ≡ true
unfolding step close advance dial_ended read_ended waited wait_closed
step-done c s h = ground (arith, h)

pub step-Nears : (c : Conn) (s : Step) → c.done ≡ true → is_sound c ≡ true → Nears c (step c s)
unfolding step close advance dial_ended read_ended waited wait_closed is_sound rank
step-Nears c s h i = ground (arith, h, i)

abbrev pub is_ended : Phase → Bool
is_ended ended = true
is_ended p = false

-- A step of the connection's own goroutines that can be taken, once it is closed. `ok` says how a
-- dial ends.
abbrev pub next : Bool → Phase → Conn → Step
next ok dialing c = dial_ends ok
next ok reading c = if is_open c.socket then writer_closes else read_closed
next ok joining c = if c.writing then writer_cancelled else advances
next ok joining_ping c = if c.pinging then pinger_stops else advances
next ok waiting c = wait_done
next ok p c = advances

pub next-nears :
    (ok : Bool) (c : Conn)
    → c.done ≡ true
    → is_sound c ≡ true
    → is_ended c.phase ≡ false
    → rank (step c (next ok c.phase c)) < rank c
unfolding step close advance dial_ended read_ended waited wait_closed is_sound rank
next-nears ok c h i e = ground (arith, h, i, e)

pub rank_0-ended : (c : Conn) → rank c ≤ 0 → is_ended c.phase ≡ true
unfolding rank
rank_0-ended c h = ground (arith, h)

pub rank-bound : (c : Conn) → is_sound c ≡ true → rank c ≤ 16
unfolding rank is_sound
rank-bound c h = ground (arith, h)

step-ended : (c : Conn) (s : Step) → is_ended c.phase ≡ true → is_ended (step c s).phase ≡ true
unfolding step close advance dial_ended read_ended waited wait_closed
step-ended c s h = ground (arith, h)

pub run-ended :
    (c : Conn) (ss : List Step) → is_ended c.phase ≡ true → is_ended (run c ss).phase ≡ true
unfolding run
run-ended c [] h = h
run-ended c (s ∷ ss) h = run-ended (step c s) ss (step-ended c s h)

-- The Hellos that are still to come at most, once the connection is closed.
abbrev pub greets : Phase → ℕ
greets dialing = 1
greets dialed = 1
greets linked = 1
greets greeting = 1
greets p = 0

step-hellos :
    (c : Conn) (s : Step)
    → c.done ≡ true
    → (step c s).hellos + greets (step c s).phase ≤ c.hellos + greets c.phase
unfolding step close advance dial_ended read_ended waited wait_closed
step-hellos c s h = ground (arith, h)

pub run-hellos :
    (c : Conn) (ss : List Step)
    → c.done ≡ true
    → (run c ss).hellos + greets (run c ss).phase ≤ c.hellos + greets c.phase
unfolding run
run-hellos c [] h = omega arith
run-hellos c (s ∷ ss) h =
    omega (arith, step-hellos c s h, run-hellos (step c s) ss (step-done c s h))

pub greets_1 : (p : Phase) → greets p ≤ 1
greets_1 p = ground arith

pub ended_phase : (p : Phase) → is_ended p ≡ true → p ≡ ended
ended_phase p h = ground (arith, h)
