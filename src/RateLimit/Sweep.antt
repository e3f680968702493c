-- ===== src/RateLimit/Sweep.antt =====
-- What the sweeps take from the limiter's table, and what they leave of each key.
use we_sync.Base.{
  ℕ, ◌≤◌, ◌≡◌, refl, [], ◌∷◌, Option, none, some, String, Map, lookup, if◌then◌else◌, ltb, is_iff,
  arith, IsUnique,
}
use we_sync.RateLimit.{Bucket, Limiter, sweep, swept}

-- The bucket, unless its window has ended.
abbrev pub live : ℕ → Option Bucket → Option Bucket
live now none = none
live now (some b) = if ltb b.window_end now then none else some b

lookup-sweep-none :
    (now : ℕ) (k : String) (m : Map Bucket) → lookup k m ≡ none → lookup k (sweep now m) ≡ none
unfolding lookup sweep
lookup-sweep-none now k [] h = refl
lookup-sweep-none now k ((j, b) ∷ m) h = ground (arith, lookup-sweep-none now k m)

-- What the sweep takes of a key had ended.
lookup-sweep :
    (now t : ℕ) (k : String) (m : Map Bucket)
    → now ≤ t
    → IsUnique m
    → live t (lookup k (sweep now m)) ≡ live t (lookup k m)
unfolding lookup sweep
lookup-sweep now t k [] h u = refl
lookup-sweep now t k ((j, b) ∷ m) h u =
    ground (arith, is_iff j k, lookup-sweep now t k m h u.1, lookup-sweep-none now j m u.0)

sweep-IsUnique : (now : ℕ) (m : Map Bucket) → IsUnique m → IsUnique (sweep now m)
unfolding sweep
sweep-IsUnique now [] u = tt
sweep-IsUnique now ((j, b) ∷ m) u =
    ground (arith, sweep-IsUnique now m u.1, lookup-sweep-none now j m u.0)

-- The sweep changes neither the settings nor what lives on of any key.
pub swept_facts :
    (l : Limiter) (k : String) (now : ℕ)
    → IsUnique l.entries
    → ((swept l now).limit ≡ l.limit)
      × ((swept l now).window ≡ l.window)
      × IsUnique (swept l now).entries
      × (live now (lookup k (swept l now).entries) ≡ live now (lookup k l.entries))
unfolding swept
swept_facts l k now u =
    ground (arith, sweep-IsUnique now l.entries u, lookup-sweep now now k l.entries (omega arith) u)

pub live_later : (t u : ℕ) (x y : Option Bucket) → t ≤ u → live t x ≡ live t y → live u x ≡ live u y
live_later t u none none h e = refl
live_later t u none (some y) h e = ground arith
live_later t u (some x) none h e = ground arith
live_later t u (some x) (some y) h e = ground arith
