-- ===== src/Desktop/Told.antt =====
-- What the backend is told of the window.
use we_sync.Base.{
  zero, suc, Bool, true, false, ◌&&◌, List, [], ◌∷◌, ◌++◌, all, is_empty, ◌≡◌, refl, arith,
  Bool-cases, inl, inr,
}
use we_sync.Desktop.{
  Shell, opened, before_close, show_window, quit, taken, arrive, Step, closes, shows, quits,
  arrives, web_view_tells, step, run,
}

-- The last of a list, or what stands before it.
abbrev last_or : Bool → List Bool → Bool
last_or v [] = v
last_or v (w ∷ ws) = last_or w ws

last_or-append : (v w : Bool) (ws : List Bool) → last_or v (ws ++ (w ∷ [])) ≡ w
last_or-append v w [] = refl
last_or-append v w (x ∷ ws) = last_or-append x w ws

-- Each call that ends is the oldest, and reaches the backend; and the web view tells nothing.
abbrev pub in_order : Step → Bool
in_order (arrives zero ok) = ok
in_order (arrives (suc n) ok) = false
in_order (web_view_tells v) = false
in_order _ = true

-- The last that is on its way tells what the window shows.
abbrev IsTold : Shell → Type 0
IsTold a = last_or a.active a.in_flight ≡ a.visible

step-IsTold : (a : Shell) (s : Step) → in_order s ≡ true → IsTold a → IsTold (step a s)
unfolding step before_close show_window quit
step-IsTold a closes o v = elim (Bool-cases a.quitting) [
  | inl e ↦ rw (e, before_close) v
  | inr e ↦ rw (e, before_close) (last_or-append a.active false a.in_flight)
]
step-IsTold a shows o v = elim (Bool-cases a.has_ctx) [
  | inl e ↦ rw (e, show_window) (last_or-append a.active true a.in_flight)
  | inr e ↦ rw (e, show_window) v
]
step-IsTold a quits o v = elim (Bool-cases a.has_ctx) [
  | inl e ↦ rw (e, quit) v
  | inr e ↦ rw (e, quit) v
]
step-IsTold a (arrives (suc n) ok) o v = ground (arith, o)
step-IsTold a (web_view_tells w) o v = ground (arith, o)
step-IsTold a (arrives zero false) o v = ground (arith, o)
step-IsTold a (arrives zero true) o v = by_list a.in_flight v
  where
    by_list :
        (vs : List Bool)
        → IsTold (record a { in_flight = vs })
        → IsTold (arrive zero true (record a { in_flight = vs }))
    by_list [] v = unfold arrive taken in v
    by_list (w ∷ ws) v = unfold arrive taken in v

run-IsTold : (a : Shell) (ss : List Step) → all in_order ss ≡ true → IsTold a → IsTold (run a ss)
unfolding run
run-IsTold a [] o v = v
run-IsTold a (s ∷ ss) o v =
    run-IsTold (step a s) ss (rest_of (in_order s) _ o)
      (step-IsTold a s (first_of (in_order s) _ o) v)
  where
    first_of : (x y : Bool) → (x && y) ≡ true → x ≡ true
    first_of x y h = ground (arith, h)

    rest_of : (x y : Bool) → (x && y) ≡ true → y ≡ true
    rest_of x y h = ground (arith, h)

step-has_ctx : (a : Shell) (s : Step) → a.has_ctx ≡ true → (step a s).has_ctx ≡ true
unfolding step before_close show_window quit arrive
step-has_ctx a s h = ground (arith, h)

run-has_ctx : (a : Shell) (ss : List Step) → a.has_ctx ≡ true → (run a ss).has_ctx ≡ true
unfolding run
run-has_ctx a [] h = h
run-has_ctx a (s ∷ ss) h = run-has_ctx (step a s) ss (step-has_ctx a s h)

shown-IsTold : (a : Shell) → a.has_ctx ≡ true → IsTold (step a shows)
unfolding step show_window
shown-IsTold a h = rw (h, show_window) (last_or-append a.active true a.in_flight)

-- After a start with the window or hidden, and anything that happens then, until the window is shown
-- once more: if from there on the calls to the backend all succeed and end in the order in which they
-- were made, those that were on their way included, and the web view's own connection tells nothing,
-- then, however often the window is hidden and shown, whenever no call is on its way the backend was
-- told last what the window shows.
pub run-told :
    (start_hidden : Bool) (before after : List Step)
    → all in_order after ≡ true
    → let a = run (step (run (opened start_hidden) before) shows) after in
      is_empty a.in_flight ≡ true → a.active ≡ a.visible
unfolding opened
run-told start_hidden before after o e =
    let b = run (opened start_hidden) before in
    let a = run (step b shows) after in
    settled a.active a.in_flight a.visible e (
      run-IsTold (step b shows) after o
        (shown-IsTold b (run-has_ctx (opened start_hidden) before refl)))
  where
    settled : (v : Bool) (vs : List Bool) (w : Bool) → is_empty vs ≡ true → last_or v vs ≡ w → v ≡ w
    settled v [] w e h = h
    settled v (x ∷ xs) w e h = ground (arith, e)
