-- ===== src/Api/UiHub.antt =====
-- internal/api/hub.go: the windows of the user interface, each on a goroutine of its own. A step is what
-- one goroutine does under one hold of the lock, one call of `onChange`, or a PUT of /api/active
-- (handlers.go).
pub mod Broadcast
use we_sync.Base.{
  ℕ, Bool, true, false, not, ◌&&◌, List, [], ◌∷◌, if◌then◌else◌, holds, remove, is_empty,
}

pub record UiHub : Type 0 where
  pub clients : List ℕ
  pub has_callback : Bool  -- `onChange` is set
  pub opening : List ℕ  -- registered, and `onChange(true)` is still to be called
  pub closing : List ℕ  -- the last one out, and `onChange(false)` is still to be called
  pub foreground : Bool  -- what `SetForeground` was told last

unfoldable pub new_hub : UiHub
new_hub = record {
  clients = [];
  has_callback = false;
  opening = [];
  closing = [];
  foreground = false;
}

unfoldable pub on_active_change : UiHub → UiHub
on_active_change h = record h { has_callback = true }

-- A client is registered, with `onChange` as it is then. Each window has a handle of its own.
unfoldable pub register : UiHub → ℕ → UiHub
register h n = if holds n h.clients then h else record h {
  clients = n ∷ h.clients;
  opening = if h.has_callback then n ∷ h.opening else h.opening;
}

-- `onChange(true)`.
unfoldable pub announce : UiHub → ℕ → UiHub
announce h n =
    if holds n h.opening then record h { opening = remove n h.opening; foreground = true } else h

-- The reading is over: the client is deleted, and `nowEmpty` is read.
unfoldable pub unregister : UiHub → ℕ → UiHub
unregister h n =
    let left = remove n h.clients in
    if holds n h.clients && not (holds n h.opening)
    then record h {
      clients = left;
      closing = if is_empty left && h.has_callback then n ∷ h.closing else h.closing;
    }
    else h

-- `onChange(false)`.
unfoldable pub report : UiHub → ℕ → UiHub
report h n =
    if holds n h.closing then record h { closing = remove n h.closing; foreground = false } else h

-- `Active`: what the request says.
unfoldable pub put_foreground : UiHub → Bool → UiHub
put_foreground h v = record h { foreground = v }

pub data Step : Type 0 where
  sets_callback : Step
  registers announces unregisters reports : ℕ → Step
  puts : Bool → Step

unfoldable pub step : UiHub → Step → UiHub
unfolding on_active_change register announce unregister report put_foreground
step h sets_callback = on_active_change h
step h (registers n) = register h n
step h (announces n) = announce h n
step h (unregisters n) = unregister h n
step h (reports n) = report h n
step h (puts v) = put_foreground h v

unfoldable pub run : UiHub → List Step → UiHub
unfolding step
run h [] = h
run h (s ∷ ss) = run (step h s) ss
