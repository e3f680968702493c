-- ===== src/Stmanager/Wait.antt =====
-- internal/stmanager/manager.go: the loops of `awaitReady` and `waitPortFree`, as one thread sees
-- them. `now n` is the clock where the round `n` compares it with the deadline, in milliseconds.
use we_sync.Base.{
  ℕ, zero, suc, ◌+◌, ◌*◌, ◌≤◌, ◌<◌, Bool, true, false, Option, none, some, if◌then◌else◌, ltb, ◌≡◌,
  refl, ◌∙◌, ap, inl, inr, Bool-cases, Option-cases, arith, lt→ltb,
}
use we_sync.Stmanager.{Outcome, ok, start_aborted, start_timed_out}

abbrev pub start_deadline : ℕ
start_deadline = 30000

abbrev pub ready_poll_every : ℕ
ready_poll_every = 500

abbrev pub port_free_wait : ℕ
port_free_wait = 5000

-- What a thread sees in the rounds of its loop.
pub record Rounds : Type 0 where
  pub began : ℕ  -- the clock before the loop
  pub now : ℕ → ℕ
  pub port_open : ℕ → Bool
  pub aborted : ℕ → Bool

unfoldable pub after : Rounds → ℕ → ℕ → Bool
after r wait n = ltb (r.began + wait) (r.now n)

-- A loop that leaves in the first round with a result.
unfoldable pub rounds_from {ℓ} : {A : Type ℓ} → (ℕ → Option A) → ℕ → ℕ → Option A
rounds_from body zero n = none
rounds_from body (suc fuel) n =
    let rest = rounds_from body fuel (suc n) in elim (body n) [ none ↦ rest | some a ↦ some a ]

unfoldable pub await_ready_round : Rounds → ℕ → Option Outcome
unfolding after
await_ready_round r n =
    if r.aborted n
    then some start_aborted
    else (if r.port_open n
        then some ok
        else (if after r start_deadline n then some start_timed_out else none))

unfoldable pub await_ready : Rounds → ℕ → Option Outcome
unfolding rounds_from await_ready_round
await_ready r fuel = rounds_from (await_ready_round r) fuel 0

-- Whether the port is free at the end.
unfoldable pub wait_port_free_round : Rounds → ℕ → Option Bool
unfolding after
wait_port_free_round r n =
    if r.port_open n then (if after r port_free_wait n then some false else none) else some true

unfoldable pub wait_port_free : Rounds → ℕ → Option Bool
unfolding rounds_from wait_port_free_round
wait_port_free r fuel = rounds_from (wait_port_free_round r) fuel 0

at {ℓ} :
    {A : Type ℓ} (body : ℕ → Option A) {i j : ℕ} {o : Option A} → i ≡ j → body j ≡ o → body i ≡ o
at body e h = ap body e ∙ h

-- The first round with a result gives the loop's.
rounds-first {ℓ} :
    {A : Type ℓ} (body : ℕ → Option A) (fuel n d : ℕ) (a : A)
    → d < fuel
    → ((i : ℕ) → i < d → body (n + i) ≡ none)
    → body (n + d) ≡ some a
    → rounds_from body fuel n ≡ some a
unfolding rounds_from
rounds-first body zero n d a lt before h = absurd (omega (arith, lt))
rounds-first body (suc fuel) n zero a lt before h =
    let e : body n ≡ some a = at body (omega arith) h in rw (e, rounds_from) refl
rounds-first body (suc fuel) n (suc d) a lt before h =
    let e : body n ≡ none = at body (omega arith) (before 0 (omega arith)) in
    rw (e, rounds_from)
      (rounds-first body fuel (suc n) d a (omega (arith, lt))
        (λ i k. at body (omega arith) (before (suc i) (omega (arith, k))))
        (at body (omega arith) h))

waiting_round :
    (r : Rounds) (n : ℕ)
    → r.aborted n ≡ false
    → r.port_open n ≡ false
    → after r start_deadline n ≡ false
    → await_ready_round r n ≡ none
unfolding await_ready_round
waiting_round r n a o d = rw (a, o, d) refl

open_round :
    (r : Rounds) (n : ℕ)
    → r.aborted n ≡ false
    → r.port_open n ≡ true
    → await_ready_round r n ≡ some ok
unfolding await_ready_round
open_round r n a o = rw (a, o) refl

-- With a result in some round within the fuel, the loop returns one.
rounds-total {ℓ} :
    {A : Type ℓ} (body : ℕ → Option A) (fuel n d : ℕ) (a : A)
    → d < fuel
    → body (n + d) ≡ some a
    → (b : A) × (rounds_from body fuel n ≡ some b)
unfolding rounds_from
rounds-total body zero n d a lt h = absurd (omega (arith, lt))
rounds-total body (suc fuel) n zero a lt h =
    let e : body n ≡ some a = at body (omega arith) h in (a, rw (e, rounds_from) refl)
rounds-total body (suc fuel) n (suc d) a lt h = elim (Option-cases (body n)) [
  | inl e ↦
      rw (e, rounds_from)
        (rounds-total body fuel (suc n) d a (omega (arith, lt)) (at body (omega arith) h))
  | inr (b, e) ↦ (b, rw (e, rounds_from) refl)
]

-- `time.Sleep` between two rounds: the clock is monotonic.
abbrev pub Sleeps : Rounds → Type 0
Sleeps r = (n : ℕ) → r.now n + ready_poll_every ≤ r.now (suc n)

clock_lem : (r : Rounds) → r.began ≤ r.now 0 → Sleeps r → (n : ℕ) → r.began + n * 500 ≤ r.now n
clock_lem r b sl zero = omega (arith, b)
clock_lem r b sl (suc n) = omega (arith, clock_lem r b sl n, sl n)

after-clock :
    (r : Rounds)
    → r.began ≤ r.now 0
    → Sleeps r
    → (wait n : ℕ) → wait < n * 500
    → after r wait n ≡ true
unfolding after
after-clock r b sl wait n lt =
    lt→ltb (r.began + wait) (r.now n) (omega (arith, clock_lem r b sl n, lt))

-- A round after the deadline has a result.
late_round :
    (r : Rounds) (n : ℕ)
    → after r start_deadline n ≡ true
    → (o : Outcome) × (await_ready_round r n ≡ some o)
unfolding await_ready_round
late_round r n h = elim (Bool-cases (r.aborted n)) [
  | inl e ↦ (start_aborted, rw e refl)
  | inr e ↦ elim (Bool-cases (r.port_open n)) [
    | inl f ↦ (ok, rw (e, f) refl)
    | inr f ↦ (start_timed_out, rw (e, f, h) refl)
  ]
]

late_wait :
    (r : Rounds) (n : ℕ)
    → after r port_free_wait n ≡ true
    → (o : Bool) × (wait_port_free_round r n ≡ some o)
unfolding wait_port_free_round
late_wait r n h = elim (Bool-cases (r.port_open n)) [
  | inl f ↦ (false, rw (f, h) refl)
  | inr f ↦ (true, rw f refl)
]

await_ready-ends :
    (r : Rounds) → r.began ≤ r.now 0 → Sleeps r → (o : Outcome) × (await_ready r 62 ≡ some o)
unfolding await_ready
await_ready-ends r b sl =
    let (o, h) = late_round r 61 (after-clock r b sl start_deadline 61 (omega arith)) in
    rounds-total (await_ready_round r) 62 0 61 o (omega arith) h

wait_port_free-ends :
    (r : Rounds) → r.began ≤ r.now 0 → Sleeps r → (o : Bool) × (wait_port_free r 12 ≡ some o)
unfolding wait_port_free
wait_port_free-ends r b sl =
    let (o, h) = late_wait r 11 (after-clock r b sl port_free_wait 11 (omega arith)) in
    rounds-total (wait_port_free_round r) 12 0 11 o (omega arith) h

-- Whatever the port and the state answer, `awaitReady` returns within 62 rounds and `waitPortFree`
-- within 12, on a clock that does not run backwards and that a sleep moves on by at least its 500
-- milliseconds.
pub loops_end :
    (r : Rounds)
    → r.began ≤ r.now 0
    → Sleeps r
    → ((o : Outcome) × (await_ready r 62 ≡ some o)) × ((b : Bool) × (wait_port_free r 12 ≡ some b))
loops_end r b sl = (await_ready-ends r b sl, wait_port_free-ends r b sl)

-- The first round in which the port answers decides `awaitReady`, if the start was not aborted up to
-- it and no earlier round was past the deadline: enough fuel gives success.
pub await_ready-ready :
    (r : Rounds) (fuel d : ℕ)
    → d < fuel
    → ((i : ℕ) → i < suc d → r.aborted i ≡ false)
    → ((i : ℕ) → i < d → (r.port_open i ≡ false) × (after r start_deadline i ≡ false))
    → r.port_open d ≡ true
    → await_ready r fuel ≡ some ok
unfolding await_ready
await_ready-ready r fuel d lt live before h =
    rounds-first (await_ready_round r) fuel 0 d ok lt
      (λ i k.
        at (await_ready_round r) (omega arith)
          (waiting_round r i (live i (omega (arith, k))) ((before i k).0) ((before i k).1)))
      (at (await_ready_round r) (omega arith) (open_round r d (live d (omega arith)) h))
