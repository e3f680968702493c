-- ===== src/RateLimit/Alone.antt =====
-- The limiter seen from one key: the sweeps and the other keys make no difference to its answers.
use we_sync.Base.{
  ℕ, suc, ◌+◌, ◌≤◌, ◌≡◌, refl, ◌∙◌, Bool, true, false, List, [], ◌∷◌, Option, none, some, String,
  lookup, lookup-insert, if◌then◌else◌, ltb, leb, ◌is◌, is_iff, is_self, arith, Bool-cases, inl,
  inr, IsUnique, insert-IsUnique, Option-cases,
}
use we_sync.RateLimit.{Bucket, Limiter, swept, count_call, allow}
use we_sync.RateLimit.Sweep.{live, swept_facts, live_later}

-- One key alone, with a bucket that is never swept.
unfoldable pub admit : ℕ → ℕ → Option Bucket → ℕ → Option Bucket × Bool
admit limit window none now = (some (record { count = 1; window_end = now + window }), true)
admit limit window (some b) now =
    if ltb b.window_end now
    then (some (record { count = 1; window_end = now + window }), true)
    else if leb limit b.count
    then (some b, false)
    else (some (record b { count = suc b.count }), true)

unfoldable pub alone : ℕ → ℕ → Option Bucket → List ℕ → List Bool
unfolding admit
alone limit window b [] = []
alone limit window b (t ∷ ts) =
    let (b', answer) = admit limit window b t in answer ∷ alone limit window b' ts

-- The answers that the limiter gives to the calls with key `k`, among calls with any key.
unfoldable pub answers_of : String → Limiter → List (String × ℕ) → List Bool
unfolding allow
answers_of k l [] = []
answers_of k l ((j, t) ∷ cs) =
    let (l', answer) = allow l j t in
    let rest = answers_of k l' cs in if j is k then answer ∷ rest else rest

unfoldable pub times_of : String → List (String × ℕ) → List ℕ
times_of k [] = []
times_of k ((j, t) ∷ cs) = if j is k then t ∷ times_of k cs else times_of k cs

-- The calls come in the order of the clock.
abbrev pub IsOrdered : ℕ → List (String × ℕ) → Type 0
IsOrdered t [] = Unit
IsOrdered t ((j, u) ∷ cs) = (t ≤ u) × IsOrdered u cs

count_call-IsUnique :
    (l : Limiter) (k : String) (now : ℕ)
    → IsUnique l.entries
    → IsUnique (count_call l k now).0.entries
unfolding count_call
count_call-IsUnique l k now u = elim (Option-cases (lookup k l.entries)) [
  | inl missing ↦ rw (missing, count_call) (insert-IsUnique k _ l.entries u)
  | inr (b, found) ↦
      rw (found, count_call)
        (ground (
          arith,
          insert-IsUnique k (record { count = 1; window_end = now + l.window }) l.entries u,
          insert-IsUnique k (record b { count = suc b.count }) l.entries u,
        ))
]

count_call-settings :
    (l : Limiter) (k : String) (now : ℕ)
    → ((count_call l k now).0.limit ≡ l.limit) × ((count_call l k now).0.window ≡ l.window)
unfolding count_call
count_call-settings l k now = ground arith

count_call-admit :
    (l : Limiter) (k : String) (now : ℕ) (b : Option Bucket)
    → live now (lookup k l.entries) ≡ live now b
    → ((count_call l k now).1 ≡ (admit l.limit l.window b now).1)
      × (live now (lookup k (count_call l k now).0.entries)
          ≡ live now (admit l.limit l.window b now).0)
unfolding count_call admit
count_call-admit l k now b h =
    let fresh : Bucket = record { count = 1; window_end = now + l.window } in
    elim (Option-cases (lookup k l.entries)) [
      | inl missing ↦ ground (arith, is_self k, lookup-insert k k fresh l.entries)
      | inr (x, found) ↦ ground (
        arith,
        is_self k,
        lookup-insert k k fresh l.entries,
        lookup-insert k k (record x { count = suc x.count }) l.entries,
      )
    ]

count_call_other :
    (l : Limiter) (j k : String) (now : ℕ)
    → (j is k) ≡ false
    → lookup k (count_call l j now).0.entries ≡ lookup k l.entries
unfolding count_call
count_call_other l j k now other =
    let fresh : Bucket = record { count = 1; window_end = now + l.window } in
    elim (Option-cases (lookup j l.entries)) [
      | inl missing ↦ ground (arith, lookup-insert k j fresh l.entries)
      | inr (x, found) ↦ ground (
        arith,
        lookup-insert k j fresh l.entries,
        lookup-insert k j (record x { count = suc x.count }) l.entries,
      )
    ]

-- What a call with the key `j` keeps.
record Agrees (k : String) (limit window t : ℕ) (l : Limiter) (b : Option Bucket) : Type 0 where
  limit_eq : l.limit ≡ limit
  window_eq : l.window ≡ window
  unique : IsUnique l.entries
  alive : live t (lookup k l.entries) ≡ live t b

Agrees-later :
    (k : String) (limit window t u : ℕ) (l : Limiter) (b : Option Bucket)
    → t ≤ u
    → Agrees k limit window t l b
    → Agrees k limit window u l b
Agrees-later k limit window t u l b h a = record {
  limit_eq = a.limit_eq;
  window_eq = a.window_eq;
  unique = a.unique;
  alive = live_later t u (lookup k l.entries) b h a.alive;
}

swept-Agrees :
    (k : String) (limit window t : ℕ) (l : Limiter) (b : Option Bucket)
    → Agrees k limit window t l b
    → Agrees k limit window t (swept l t) b
swept-Agrees k limit window t l b a =
    let (lim, win, uniq, alive) = swept_facts l k t a.unique in
    record {
      limit_eq = lim ∙ a.limit_eq;
      window_eq = win ∙ a.window_eq;
      unique = uniq;
      alive = alive ∙ a.alive;
    }

allow_other :
    (k j : String) (limit window t : ℕ) (l : Limiter) (b : Option Bucket)
    → (j is k) ≡ false
    → Agrees k limit window t l b
    → Agrees k limit window t (allow l j t).0 b
unfolding allow
allow_other k j limit window t l b other a =
    let a' = swept-Agrees k limit window t l b a in
    let (lim, win) = count_call-settings (swept l t) j t in
    record {
      limit_eq = lim ∙ a'.limit_eq;
      window_eq = win ∙ a'.window_eq;
      unique = count_call-IsUnique (swept l t) j t a'.unique;
      alive = rw (count_call_other (swept l t) j k t other) a'.alive;
    }

allow_self :
    (k : String) (limit window t : ℕ) (l : Limiter) (b : Option Bucket)
    → Agrees k limit window t l b
    → ((allow l k t).1 ≡ (admit limit window b t).1)
      × Agrees k limit window t (allow l k t).0 (admit limit window b t).0
unfolding allow
allow_self k limit window t l b a =
    let a' = swept-Agrees k limit window t l b a in
    let (lim, win) = count_call-settings (swept l t) k t in
    let (answer, alive) = count_call-admit (swept l t) k t b a'.alive in
    (
      rw (← a'.limit_eq, ← a'.window_eq) answer,
      record {
        limit_eq = lim ∙ a'.limit_eq;
        window_eq = win ∙ a'.window_eq;
        unique = count_call-IsUnique (swept l t) k t a'.unique;
        alive = rw (← a'.limit_eq, ← a'.window_eq) alive;
      },
    )

answers_of-Agrees :
    (k : String) (limit window t : ℕ) (l : Limiter) (b : Option Bucket) (cs : List (String × ℕ))
    → IsOrdered t cs
    → Agrees k limit window t l b
    → answers_of k l cs ≡ alone limit window b (times_of k cs)
unfolding answers_of alone times_of
answers_of-Agrees k limit window t l b [] o a = refl
answers_of-Agrees k limit window t l b ((j, u) ∷ cs) o a =
    let a' = Agrees-later k limit window t u l b o.0 a in
    elim (Bool-cases (j is k)) [
      | inl same ↦
          let (answer, next) = allow_self k limit window u l b a' in
          rw (same, (is_iff j k).0 same)
            (ground (
              arith,
              answer,
              answers_of-Agrees k limit window u (allow l k u).0 (admit limit window b u).0 cs o.1
                  next,
            ))
      | inr other ↦ rw other (
          answers_of-Agrees k limit window u (allow l j u).0 b cs o.1
            (allow_other k j limit window u l b other a'))
    ]

-- In calls that come in the order of the clock, a limiter whose table has each key once answers each
-- key as if it were alone and no entry were ever evicted.
pub answers_of-alone :
    (k : String) (t : ℕ) (l : Limiter) (cs : List (String × ℕ))
    → IsUnique l.entries
    → IsOrdered t cs
    → answers_of k l cs ≡ alone l.limit l.window (lookup k l.entries) (times_of k cs)
answers_of-alone k t l cs u o =
    answers_of-Agrees k l.limit l.window t l (lookup k l.entries) cs o
      (record { limit_eq = refl; window_eq = refl; unique = u; alive = refl })
