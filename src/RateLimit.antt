-- ===== src/RateLimit.antt =====
-- internal/ratelimit/ratelimit.go: the fixed-window limiter. Each method is given what the clock
-- reads; `limit` and `window` are not negative, and the zero time is 0.
pub mod Sweep
pub mod Alone
pub mod Window
use we_sync.Base.{
  ℕ, suc, ◌+◌, Bool, true, false, List, [], ◌∷◌, Option, none, some, String, Map, lookup, insert,
  if◌then◌else◌, ltb, leb,
}

pub record Bucket : Type 0 where
  pub count : ℕ
  pub window_end : ℕ

pub record Limiter : Type 0 where
  pub entries : Map Bucket
  pub limit : ℕ
  pub window : ℕ
  pub last_sweep : ℕ

unfoldable pub new : ℕ → ℕ → Limiter
new limit window = record { entries = []; limit = limit; window = window; last_sweep = 0 }

-- The loop that deletes the stale entries.
unfoldable pub sweep : ℕ → Map Bucket → Map Bucket
sweep now [] = []
sweep now ((k, b) ∷ m) = if ltb b.window_end now then sweep now m else (k, b) ∷ sweep now m

unfoldable pub evict : Limiter → ℕ → Limiter
unfolding sweep
evict l now = record l { entries = sweep now l.entries }

-- The first part of `Allow`: the sweep, at most once in a window.
unfoldable pub swept : Limiter → ℕ → Limiter
unfolding sweep
swept l now =
    if ltb (l.last_sweep + l.window) now
    then record l { entries = sweep now l.entries; last_sweep = now }
    else l

-- The second part: the key's bucket.
unfoldable pub count_call : Limiter → String → ℕ → Limiter × Bool
count_call l key now =
    let fresh : Bucket = record { count = 1; window_end = now + l.window } in
    let restarted : Limiter × Bool = (record l { entries = insert key fresh l.entries }, true) in
    elim (lookup key l.entries) [
      | none ↦ restarted
      | some b ↦
          if ltb b.window_end now then restarted else if leb l.limit b.count then (l, false) else (
            record l { entries = insert key (record b { count = suc b.count }) l.entries },
            true,
          )
    ]

unfoldable pub allow : Limiter → String → ℕ → Limiter × Bool
unfolding swept count_call
allow l key now = count_call (swept l now) key now
