-- ===== src/RateLimit/Window.antt =====
-- How many calls of a key the limiter lets through in a window.
use we_sync.Base.{
  ℕ, suc, ◌+◌, ◌≤◌, ◌≡◌, Bool, true, false, List, [], ◌∷◌, none, some, String, lookup, is_self,
  arith, IsUnique,
}
use Prim.Native.Nat.{max}
use we_sync.RateLimit.{Limiter}
use we_sync.RateLimit.Alone.{alone, answers_of, times_of, IsOrdered, answers_of-alone}

-- How many calls were let through.
abbrev pub passed : List Bool → ℕ
passed [] = 0
passed (true ∷ bs) = suc (passed bs)
passed (false ∷ bs) = passed bs

-- Every call comes before the time `u` is over.
abbrev pub Until : ℕ → List (String × ℕ) → Type 0
Until u [] = Unit
Until u ((j, t) ∷ cs) = (t ≤ u) × Until u cs

alone-passed :
    (k : String) (limit window count u : ℕ) (cs : List (String × ℕ))
    → Until u cs
    → passed (alone limit window (some (record { count = count; window_end = u })) (times_of k cs))
        + count
      ≤ max limit count
unfolding alone times_of
alone-passed k limit window count u [] h = omega arith
alone-passed k limit window count u ((j, t) ∷ cs) h = ground (
  arith,
  alone-passed k limit window count u cs h.1,
  alone-passed k limit window (suc count) u cs h.1,
)

-- In calls that come in the order of the clock, to a limiter whose table has each key once and the
-- key `k` not yet: from the first call of `k` on, and until its window is over, at most `limit` calls
-- with `k` pass, whatever other keys are used and whenever entries are swept. (A limit of 0 lets one
-- pass.)
pub answers_of-passed :
    (k : String) (t : ℕ) (l : Limiter) (cs : List (String × ℕ))
    → IsUnique l.entries
    → lookup k l.entries ≡ none
    → IsOrdered t cs
    → Until (t + l.window) cs
    → passed (answers_of k l ((k, t) ∷ cs)) ≤ max l.limit 1
unfolding alone times_of
answers_of-passed k t l cs u new o h =
    rw (answers_of-alone k t l ((k, t) ∷ cs) u (omega arith, o), new)
      (ground (arith, is_self k, alone-passed k l.limit l.window 1 (t + l.window) cs h))
