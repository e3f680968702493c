-- ===== src/Store/PowerEvents.antt =====
-- internal/store/power_events.go and `PowerEvents` of internal/api/handlers.go. The table is the list of
-- its rows, newest timestamp first. The database does not fix the order of rows with the same timestamp:
-- `leads` is its choice.
use we_sync.Store.Level.{events_limit, rows_limit}
use we_sync.Base.{
  ℤ, pos, negsuc, ℕ, zero, suc, ◌≤◌, ◌<◌, Bool, false, not, ◌&&◌, ◌||◌, none, some, List, [], ◌∷◌,
  Option, String, if◌then◌else◌, ltb, ◌==◌, take, All, ◌≡◌, refl, ap, ◌∙◌, arith,
}

abbrev pub max_events : ℕ
max_events = 200

pub record PowerEvent : Type 0 where
  pub timestamp : ℕ
  pub kind : String
  pub message : String

-- A row among those that are ordered.
unfoldable pub place :
    (PowerEvent → PowerEvent → Bool) → PowerEvent → List PowerEvent → List PowerEvent
place leads e [] = e ∷ []
place leads e (f ∷ fs) =
    let rest = place leads e fs in
    if ltb e.timestamp f.timestamp || (e.timestamp == f.timestamp && not (leads e f))
    then f ∷ rest
    else e ∷ f ∷ fs

-- `now` is the clock's answer, for an event without a timestamp; the oldest rows are trimmed.
unfoldable pub append_power_event :
    (PowerEvent → PowerEvent → Bool) → ℕ → PowerEvent → List PowerEvent → List PowerEvent
unfolding place
append_power_event leads now e rows =
    take max_events
      (place leads (record e { timestamp = if e.timestamp == 0 then now else e.timestamp }) rows)

abbrev pub size : ℤ → ℕ
size (pos n) = n
size (negsuc n) = 0

unfoldable pub list_power_events : ℤ → List PowerEvent → List PowerEvent
unfolding rows_limit
list_power_events limit rows = take (size (rows_limit max_events limit)) rows

-- The GET of `PowerEvents`, with the number that the request names.
unfoldable pub power_events : Option ℤ → List PowerEvent → List PowerEvent
unfolding list_power_events events_limit
power_events limit rows = list_power_events (events_limit limit) rows

-- The table after a number of events.
unfoldable pub append_all :
    (PowerEvent → PowerEvent → Bool) → List PowerEvent → List PowerEvent → List PowerEvent
unfolding append_power_event
append_all leads rows [] = rows
append_all leads rows (e ∷ es) = append_all leads (append_power_event leads e.timestamp e rows) es

-- The events have timestamps that rise, above `t`.
abbrev pub IsRising : ℕ → List PowerEvent → Type 0
IsRising t [] = Unit
IsRising t (e ∷ es) = (t < e.timestamp) × IsRising e.timestamp es

abbrev pub newest_first : List PowerEvent → List PowerEvent → List PowerEvent
newest_first rows [] = rows
newest_first rows (e ∷ es) = newest_first (e ∷ rows) es

-- How many events a request shows that names a number, or none.
abbrev pub shown : Option ℤ → ℕ
shown none = 50
shown (some (negsuc n)) = 50
shown (some (pos zero)) = 50
shown (some (pos (suc n))) = if ltb 200 (suc n) then 200 else suc n

-- Taking twice.
take-take : (n m : ℕ) (xs : List PowerEvent) → n ≤ m → take n (take m xs) ≡ take n xs
take-take zero m xs h = ground arith
take-take (suc n) zero xs h = ground (arith, h)
take-take (suc n) (suc m) [] h = refl
take-take (suc n) (suc m) (x ∷ xs) h = ap (λ l. x ∷ l) (take-take n m xs (omega (arith, h)))

All-take :
    (n t : ℕ) (rows : List PowerEvent)
    → All (λ f. f.timestamp ≤ t) rows
    → All (λ f. f.timestamp ≤ t) (take n rows)
All-take zero t rows h = tt
All-take (suc n) t [] h = tt
All-take (suc n) t (f ∷ fs) h = (h.0, All-take n t fs h.1)

All-later :
    (t u : ℕ) (rows : List PowerEvent)
    → t ≤ u
    → All (λ f. f.timestamp ≤ t) rows
    → All (λ f. f.timestamp ≤ u) rows
All-later t u [] p h = tt
All-later t u (f ∷ fs) p h = (omega (arith, h.0, p), All-later t u fs p h.1)

shown-limit : (limit : Option ℤ) → size (rows_limit 200 (events_limit limit)) ≡ shown limit
unfolding rows_limit events_limit
shown-limit none = refl
shown-limit (some (negsuc n)) = refl
shown-limit (some (pos zero)) = refl
shown-limit (some (pos (suc n))) = ground arith

shown-bound : (limit : Option ℤ) → shown limit ≤ 200
shown-bound limit = ground arith

module _ (leads : PowerEvent → PowerEvent → Bool) where
  place-newest :
      (t : ℕ) (e : PowerEvent) (rows : List PowerEvent)
      → t < e.timestamp
      → All (λ f. f.timestamp ≤ t) rows
      → place leads e rows ≡ e ∷ rows
  unfolding place
  place-newest t e [] p h = refl
  place-newest t e (f ∷ fs) p h = ground (arith, h.0, p)

  append_power_event-newest :
      (t : ℕ) (e : PowerEvent) (rows : List PowerEvent)
      → t < e.timestamp
      → All (λ f. f.timestamp ≤ t) rows
      → append_power_event leads e.timestamp e rows ≡ take 200 (e ∷ rows)
  unfolding append_power_event
  append_power_event-newest t e rows p h =
      rw (nonzero e.timestamp p, append_power_event, place-newest t e rows p h) refl
    where
      nonzero : (u : ℕ) → t < u → (u == 0) ≡ false
      nonzero u p = ground (arith, p)

  append_all-newest :
      (t : ℕ) (full es : List PowerEvent)
      → All (λ f. f.timestamp ≤ t) full
      → IsRising t es
      → append_all leads (take 200 full) es ≡ take 200 (newest_first full es)
  unfolding append_all
  append_all-newest t full [] h r = refl
  append_all-newest t full (e ∷ es) h (p, r) =
      ap (λ rows. append_all leads rows es)
        (append_power_event-newest t e (take 200 full) p (All-take 200 t full h)
          ∙ ap (λ l. e ∷ l) (take-take 199 200 full (omega arith)))
      ∙ append_all-newest e.timestamp (e ∷ full) es
          (omega arith, All-later t e.timestamp full (omega (arith, p)) h) r

-- After events whose timestamps are set and rise, a request for events is answered with the last ones,
-- newest first: 50 if it names no positive number, and otherwise as many as it names, but 200 at most;
-- the trimming loses none that a request could show.
pub power_events-newest :
    (leads : PowerEvent → PowerEvent → Bool) (limit : Option ℤ) (es : List PowerEvent)
    → IsRising 0 es
    → power_events limit (append_all leads [] es) ≡ take (shown limit) (newest_first [] es)
unfolding power_events list_power_events
power_events-newest leads limit es r =
    ap (λ rows. take (size (rows_limit 200 (events_limit limit))) rows)
      (append_all-newest leads 0 [] es tt r)
    ∙ ap (λ n. take n (take 200 (newest_first [] es))) (shown-limit limit)
    ∙ take-take (shown limit) 200 (newest_first [] es) (shown-bound limit)
