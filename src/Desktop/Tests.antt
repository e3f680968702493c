-- ===== src/Desktop/Tests.antt =====
-- A window that is hidden and shown again.
use we_sync.Base.{zero, suc, true, false, List, [], ◌∷◌, ◌≡◌, refl}
use we_sync.Desktop.{
  opened, before_close, show_window, quit, taken, arrive, Step, closes, shows, arrives, step, run,
}
use we_sync.Desktop.Told.{run-told}

abbrev hidden_and_shown : List Step
hidden_and_shown = closes ∷ shows ∷ arrives zero true ∷ arrives zero true ∷ []

run-told_example :
    (run (step (run (opened true) []) shows) (arrives zero true ∷ hidden_and_shown)).active
    ≡ (run (step (run (opened true) []) shows) (arrives zero true ∷ hidden_and_shown)).visible
unfolding run step before_close show_window quit arrive taken opened
run-told_example = run-told true [] (arrives zero true ∷ hidden_and_shown) refl refl

-- A hidden start: the window is hidden, and the backend is in the foreground.
hidden_start : ((opened true).visible ≡ false) × ((opened true).active ≡ true)
unfolding opened
hidden_start = (refl, refl)

-- The two calls overtake one another: the window is shown, and the backend is in the background.
abbrev overtaken : List Step
overtaken = closes ∷ shows ∷ arrives (suc zero) true ∷ arrives zero true ∷ []

overtaken_end :
    ((run (opened false) overtaken).visible ≡ true)
    × (((run (opened false) overtaken).active ≡ false)
        × ((run (opened false) overtaken).in_flight ≡ []))
unfolding run step before_close show_window quit arrive taken opened
overtaken_end = (refl, (refl, refl))
