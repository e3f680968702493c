-- ===== src/Peerwire/Backoff.antt =====
-- `run` of internal/peerwire/conn.go: how long a connection waits between two dials. The body of the
-- loop is given what happens after it has looked at `done`: the dial succeeds and its connection
-- ends, or it fails and the wait ends by the close, by a nudge or by the timer.
use we_sync.Base.{
  ℕ, zero, suc, ◌*◌, ◌≤◌, ◌≡◌, ◌⊎◌, inl, refl, List, [], ◌∷◌, Option, none, some, if◌then◌else◌,
  ltb, arith,
}
use we_sync.Mobile.Decision.{second}

abbrev pub reconnect_base : ℕ
reconnect_base = 2 * second

abbrev pub reconnect_max : ℕ
reconnect_max = 60 * second

pub data Turn : Type 0 where
  connects closes nudged elapses : Turn

-- The next delay, or the end of the loop.
unfoldable pub turn : ℕ → Turn → Option ℕ
turn delay connects = some reconnect_base
turn delay closes = none
turn delay nudged = some reconnect_base
turn delay elapses = some (if ltb delay reconnect_max then delay * 2 else delay)

unfoldable pub run : ℕ → List Turn → Option ℕ
unfolding turn
run delay [] = some delay
run delay (t ∷ ts) = elim (turn delay t) [ none ↦ none | some d ↦ run d ts ]

abbrev pub elapsed : ℕ → List Turn
elapsed zero = []
elapsed (suc n) = elapses ∷ elapsed n

-- A delay within the bounds of the loop, which are its least delay and 64 seconds.
abbrev pub IsDelay : Option ℕ → Type 0
IsDelay none = Unit
IsDelay (some d) = (reconnect_base ≤ d) × (d ≤ 64 * second)

-- The delays that doubling from the least one reaches.
abbrev pub IsDoubled : ℕ → Type 0
IsDoubled d =
    (d ≡ 2 * second)
    ⊎ (d ≡ 4 * second)
    ⊎ (d ≡ 8 * second)
    ⊎ (d ≡ 16 * second)
    ⊎ (d ≡ 32 * second)
    ⊎ (d ≡ 64 * second)

run-doubled : (d : ℕ) (ts : List Turn) → IsDoubled d → IsDelay (run d ts)
unfolding run
run-doubled d [] h = ground arith
run-doubled d (connects ∷ ts) h = run-doubled reconnect_base ts (inl refl)
run-doubled d (closes ∷ ts) h = tt
run-doubled d (nudged ∷ ts) h = run-doubled reconnect_base ts (inl refl)
run-doubled d (elapses ∷ ts) h =
    run-doubled (if ltb d reconnect_max then d * 2 else d) ts (ground arith)

-- Whatever happens, the delay before the next dial (without the jitter) lies between two and 64
-- seconds; after five waits that run their time it is 64 seconds, which is above `reconnectMax`.
pub run-IsDelay :
    (ts : List Turn)
    → IsDelay (run reconnect_base ts) × (run reconnect_base (elapsed 5) ≡ some (64 * second))
unfolding run
run-IsDelay ts = (run-doubled reconnect_base ts (inl refl), refl)
