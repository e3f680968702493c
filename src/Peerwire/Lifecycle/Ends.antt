-- ===== src/Peerwire/Lifecycle/Ends.antt =====
-- What becomes of a connection once it is closed.
use we_sync.Base.{
  ◌+◌, ◌≤◌, ◌<◌, ◌≡◌, refl, ◌⊎◌, inl, inr, Bool, true, false, List, [], ◌∷◌, ◌++◌, if◌then◌else◌,
  arith, Bool-cases, In, All, length, subst, sym,
}
use we_sync.Peerwire.Lifecycle.{
  Phase, top, dialing, dialed, linked, greeting, starting, reading, leaving, hiding, cancelling,
  joining, joining_ping, clearing, waiting, ended, Conn, new_peer_conn, is_open, Step, advances,
  dial_ends, read_closed, writer_closes, writer_cancelled, pinger_stops, wait_done, step, run,
}
use we_sync.Peerwire.Lifecycle.Rank.{
  rank, step-done, Nears, step-Nears, is_ended, next, next-nears, rank_0-ended, rank-bound,
  run-ended, run-hellos, greets_1, ended_phase,
}
use we_sync.Peerwire.Lifecycle.Sound.{is_bare, is_sound, sound_at, step_sound, run_sound}

-- Each goroutine of the connection gets its turn, and a dial ends in the one way or the other.
abbrev pub IsRound : List Step → Type 0
IsRound r =
    In advances r
    × In read_closed r
    × In writer_closes r
    × In writer_cancelled r
    × In pinger_stops r
    × In wait_done r
    × (In (dial_ends true) r ⊎ In (dial_ends false) r)

either-In : (b : Bool) (s s' : Step) (r : List Step) → In s r → In s' r → In (if b then s else s') r
either-In true s s' r h h' = h
either-In false s s' r h h' = h'

next-In :
    (ok : Bool) (p : Phase) (c : Conn) (r : List Step)
    → IsRound r
    → In (dial_ends ok) r
    → In (next ok p c) r
next-In ok top c r h d = h.0
next-In ok dialing c r h d = d
next-In ok dialed c r h d = h.0
next-In ok linked c r h d = h.0
next-In ok greeting c r h d = h.0
next-In ok starting c r h d = h.0
next-In ok reading c r h d = either-In (is_open c.socket) writer_closes read_closed r h.2 h.1
next-In ok leaving c r h d = h.0
next-In ok hiding c r h d = h.0
next-In ok cancelling c r h d = h.0
next-In ok joining c r h d = either-In c.writing writer_cancelled advances r h.3 h.0
next-In ok joining_ping c r h d = either-In c.pinging pinger_stops advances r h.4 h.0
next-In ok clearing c r h d = h.0
next-In ok waiting c r h d = h.5
next-In ok ended c r h d = h.0

-- A closed connection, at a statement with its facts.
abbrev IsClosing : Conn → Type 0
IsClosing c = (c.done ≡ true) × (is_sound c ≡ true)

step-IsClosing : (c : Conn) (s : Step) → IsClosing c → IsClosing (step c s)
step-IsClosing c s h = (step-done c s h.0, step_sound c s h.1)

run-IsClosing : (c : Conn) (ss : List Step) → IsClosing c → IsClosing (run c ss)
unfolding run
run-IsClosing c [] h = h
run-IsClosing c (s ∷ ss) h = run-IsClosing (step c s) ss (step-IsClosing c s h)

Nears-le : (c c' : Conn) → Nears c c' → rank c' ≤ rank c
Nears-le c c' (inl e) = rw e (omega arith)
Nears-le c c' (inr l) = omega (arith, l)

run-le : (c : Conn) (ss : List Step) → IsClosing c → rank (run c ss) ≤ rank c
unfolding run
run-le c [] h = omega arith
run-le c (s ∷ ss) h = omega (
  arith,
  Nears-le c (step c s) (step-Nears c s h.0 h.1),
  run-le (step c s) ss (step-IsClosing c s h),
)

-- A step that can be taken, and that the steps hold, brings the end nearer.
In-nears :
    (c : Conn) (s : Step) (ss : List Step)
    → IsClosing c
    → In s ss
    → rank (step c s) < rank c
    → rank (run c ss) < rank c
unfolding run
In-nears c s [] h at l = elim at [ ]
In-nears c s (x ∷ ss) h (inl e) l =
    let first : rank (step c x) < rank c = subst (λ y. rank (step c y) < rank c) e l in
    omega (arith, first, run-le (step c x) ss (step-IsClosing c x h))
In-nears c s (x ∷ ss) h (inr at) l = elim (step-Nears c x h.0 h.1) [
  | inl e ↦
      let rest =
        In-nears (step c x) s ss (step-IsClosing c x h) at
          (subst (λ y. rank (step y s) < rank y) (sym e) l) in
      subst (λ y. rank (run (step c x) ss) < rank y) e rest
  | inr first ↦ omega (arith, first, run-le (step c x) ss (step-IsClosing c x h))
]

abbrev pub concat : List (List Step) → List Step
concat [] = []
concat (r ∷ rs) = r ++ concat rs

run-append : (c : Conn) (ss ts : List Step) → run c (ss ++ ts) ≡ run (run c ss) ts
unfolding run
run-append c [] ts = refl
run-append c (s ∷ ss) ts = run-append (step c s) ss ts

round-nears :
    (c : Conn) (r : List Step)
    → IsClosing c
    → is_ended c.phase ≡ false
    → IsRound r
    → rank (run c r) < rank c
round-nears c r h e round = elim round.6 [
  | inl d ↦
      In-nears c (next true c.phase c) r h (next-In true c.phase c r round d)
        (next-nears true c h.0 h.1 e)
  | inr d ↦
      In-nears c (next false c.phase c) r h (next-In false c.phase c r round d)
        (next-nears false c h.0 h.1 e)
]

rounds-ended :
    (c : Conn) (rs : List (List Step))
    → IsClosing c
    → All IsRound rs
    → rank c ≤ length rs
    → is_ended (run c (concat rs)).phase ≡ true
unfolding run
rounds-ended c [] h rounds l = rank_0-ended c l
rounds-ended c (r ∷ rs) h rounds l = elim (Bool-cases (is_ended c.phase)) [
  | inl e ↦ run-ended c (r ++ concat rs) e
  | inr e ↦
      subst (λ x. is_ended x.phase ≡ true) (sym (run-append c r (concat rs)))
        (rounds-ended (run c r) rs (run-IsClosing c r h) rounds.1
          (omega (arith, l, round-nears c r h e rounds.0)))
]

-- A connection that is closed at any point of its run ends, if a dial ends in time and the network
-- and the goroutines take their turns: after sixteen rounds in which each of the goroutines gets a
-- turn, in any order and with whatever else between, `run` has returned, and no goroutine and no
-- socket is left. After the close it sends at most one more Hello.
pub closed-ends :
    (ss : List Step) (rounds : List (List Step))
    → (run new_peer_conn ss).done ≡ true
    → All IsRound rounds
    → 16 ≤ length rounds
    → let c = run (run new_peer_conn ss) (concat rounds) in
      (c.phase ≡ ended) × (is_bare c ≡ true) × (c.hellos ≤ (run new_peer_conn ss).hellos + 1)
unfolding is_sound
closed-ends ss rounds done all enough =
    let c = run new_peer_conn ss in
    let sound = run_sound ss in
    let end =
      ended_phase (run c (concat rounds)).phase
        (rounds-ended c rounds (done, sound) all (omega (arith, enough, rank-bound c sound))) in
    (
      end,
      subst (λ p. sound_at p (run c (concat rounds)) ≡ true) end
          (run-IsClosing c (concat rounds) (done, sound)).1,
      omega (arith, run-hellos c (concat rounds) done, greets_1 c.phase),
    )
