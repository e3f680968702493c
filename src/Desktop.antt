-- ===== src/Desktop.antt =====
-- The desktop shell: cmd/app/app.go and main.go. The window, the calls of `notifyActive`, each on a
-- goroutine of its own, and the backend that they reach; and the start, which waits for the backend. The
-- web view has a connection of its own to the backend, which may tell it the same at any time.
pub mod Told
mod Tests
use we_sync.Base.{
  ℕ, zero, suc, ◌+◌, ◌*◌, Bool, true, false, not, List, [], ◌∷◌, ◌++◌, Option, none, some,
  if◌then◌else◌, ltb,
}

pub record Shell : Type 0 where
  pub has_ctx : Bool  -- `ctx` is set
  pub visible : Bool
  pub quitting : Bool
  pub has_quit : Bool  -- `Quit` was called
  pub in_flight : List Bool  -- what is on its way, oldest first
  pub active : Bool  -- what the backend was told last

-- The shell once `startup` has set the context: with `--hidden` no window is shown. The web view loads
-- either way, and its connection tells the backend that it is in the foreground.
unfoldable pub opened : Bool → Shell
opened start_hidden = record {
  has_ctx = true;
  visible = not start_hidden;
  quitting = false;
  has_quit = false;
  in_flight = [];
  active = true;
}

-- `beforeClose`: the answer says whether the close is prevented.
unfoldable pub before_close : Shell → Shell × Bool
before_close a =
    if a.quitting
    then (a, false)
    else (record a { visible = false; in_flight = a.in_flight ++ (false ∷ []) }, true)

unfoldable pub show_window : Shell → Shell
show_window a =
    if a.has_ctx then record a { visible = true; in_flight = a.in_flight ++ (true ∷ []) } else a

unfoldable pub quit : Shell → Shell
quit a =
    if a.has_ctx
    then record a { quitting = true; has_quit = true }
    else record a { quitting = true }

-- The call that is at a place among those on their way, and the others.
unfoldable pub taken : ℕ → List Bool → Option (Bool × List Bool)
taken n [] = none
taken zero (v ∷ vs) = some (v, vs)
taken (suc n) (v ∷ vs) = elim (taken n vs) [ none ↦ none | some (w, ws) ↦ some (w, v ∷ ws) ]

-- `notifyActive` comes to its end: the backend is told, or the call fails.
unfoldable pub arrive : ℕ → Bool → Shell → Shell
unfolding taken
arrive n ok a = elim (taken n a.in_flight) [
  | none ↦ a
  | some (v, vs) ↦ record a { in_flight = vs; active = if ok then v else a.active }
]

pub data Step : Type 0 where
  closes shows quits : Step
  arrives : (place : ℕ) (ok : Bool) → Step
  web_view_tells : Bool → Step  -- its connection opens, or was the last to close

unfoldable pub step : Shell → Step → Shell
unfolding before_close show_window quit arrive
step a closes = (before_close a).0
step a shows = show_window a
step a quits = quit a
step a (arrives n ok) = arrive n ok a
step a (web_view_tells v) = record a { active = v }

unfoldable pub run : Shell → List Step → Shell
unfolding step
run a [] = a
run a (s ∷ ss) = run (step a s) ss

-- What `startup` comes to.
pub data Started : Type 0 where
  loads_ui missing_service not_started too_late : Started

-- The wait for the backend, with the time that is left before the deadline. An answer says whether the
-- backend was ready, and how long the round took on top of the pause.
abbrev pub poll_interval : ℕ
poll_interval = 500000000

abbrev pub start_timeout : ℕ
start_timeout = 30000000000

-- The check that follows the loop.
abbrev pub next_ready : List (Bool × ℕ) → Bool
next_ready [] = false
next_ready ((ready, spent) ∷ rs) = ready

unfoldable pub await_backend : List (Bool × ℕ) → ℕ → Bool
await_backend [] now = false
await_backend ((ready, spent) ∷ rs) now =
    let rest = await_backend rs (now + (poll_interval + spent)) in
    if ltb now start_timeout then (if ready then next_ready rs else rest) else ready

-- `exists` and `runs` say whether the service is there and starts; `ready` is the first check.
unfoldable pub startup : Bool → Bool → Bool → List (Bool × ℕ) → Started
unfolding await_backend
startup ready exists runs rounds =
    if ready
    then loads_ui
    else if not exists
    then missing_service
    else if not runs
    then not_started
    else if await_backend rounds 0
    then loads_ui
    else too_late
