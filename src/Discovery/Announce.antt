-- ===== src/Discovery/Announce.antt =====
-- When a node announces itself.
use we_sync.Base.{ℕ, ◌≡◌, true, false, List, [], ◌∷◌, none, some, String, arith, All}
use we_sync.Discovery.Service.{
  Service, Step, want, fg, expires, expires_orphan, calls_back, ticks, kicks, hears, expiry,
  reads_peer, reads_gone, step, run, report, report_one, should_announce, set_want_announce,
  set_foreground, expire_timer, expire_orphan, callback, on_announce_tick, on_announce_now, on_peer,
  on_expiry, prune, expired_of,
}

-- Nothing of a past foreground is left in the background: no permission to announce, no timer and
-- no callback.
pub record IsQuiet (s : Service) : Type 0 where
  pub ready : s.announce_ready ≡ true → s.foreground ≡ true
  pub timer : s.foreground ≡ false → s.fg_timer ≡ none
  pub no_orphans : s.orphans ≡ 0
  pub no_callbacks : s.started ≡ 0

-- A move of a service whose timer callbacks run at once.
pub data Move : Type 0 where
  fires : Move  -- the timer expires, and its callback runs
  moves : Step → Move

abbrev pub IsPrompt : Move → Type 0
IsPrompt fires = Unit
IsPrompt (moves expires) = ⊥
IsPrompt (moves _) = Unit

unfoldable pub move : Service → Move → Service
move s fires = step (step s expires) calls_back
move s (moves x) = step s x

unfoldable pub moves_run : Service → List Move → Service
moves_run s [] = s
moves_run s (m ∷ ms) = moves_run (move s m) ms

report-IsQuiet : (s : Service) (sids : List String) → IsQuiet s → IsQuiet (report s sids)
unfolding report
report-IsQuiet s [] v = v
report-IsQuiet s (sid ∷ sids) v = report-IsQuiet (report_one s sid) sids (one s sid v)
  where
    one : (s : Service) (sid : String) → IsQuiet s → IsQuiet (report_one s sid)
    one s sid v = ground arith

expiry-IsQuiet : (s : Service) (now : ℕ) → IsQuiet s → IsQuiet (on_expiry s now)
unfolding on_expiry
expiry-IsQuiet s now v =
    report-IsQuiet (record s { last_seen_addr = prune now s.last_seen_addr })
      (expired_of now s.last_seen) (ground arith)

move-IsQuiet : (s : Service) (m : Move) → IsPrompt m → IsQuiet s → IsQuiet (move s m)
unfolding move step set_want_announce set_foreground expire_timer expire_orphan callback
    on_announce_tick on_announce_now on_peer
move-IsQuiet s fires p v = ground arith
move-IsQuiet s (moves (want b)) p v = ground arith
move-IsQuiet s (moves (fg true)) p v = ground arith
move-IsQuiet s (moves (fg false)) p v = ground arith
move-IsQuiet s (moves expires) p v = absurd p
move-IsQuiet s (moves expires_orphan) p v = ground arith
move-IsQuiet s (moves calls_back) p v = ground arith
move-IsQuiet s (moves ticks) p v = ground arith
move-IsQuiet s (moves kicks) p v = ground arith
move-IsQuiet s (moves (hears q now)) p v = ground arith
move-IsQuiet s (moves (expiry now)) p v = expiry-IsQuiet s now v
move-IsQuiet s (moves reads_peer) p v = ground arith
move-IsQuiet s (moves reads_gone) p v = ground arith

moves_run-IsQuiet :
    (s : Service) (ms : List Move) → All IsPrompt ms → IsQuiet s → IsQuiet (moves_run s ms)
unfolding moves_run
moves_run-IsQuiet s [] p v = v
moves_run-IsQuiet s (m ∷ ms) p v = moves_run-IsQuiet (move s m) ms p.1 (move-IsQuiet s m p.0 v)

-- If the timer's callback runs as soon as the timer expires, the test that guards every announce
-- passes only in the foreground and with the user's wish, after any moves of a quiet service.
pub moves_run-quiet :
    (s : Service) (ms : List Move)
    → All IsPrompt ms
    → IsQuiet s
    → should_announce (moves_run s ms) ≡ true
    → ((moves_run s ms).foreground ≡ true) × ((moves_run s ms).want_announce ≡ true)
unfolding should_announce
moves_run-quiet s ms p v h = ground (arith, moves_run-IsQuiet s ms p v)

-- A timer callback that runs after the app has gone to the background, its timer having expired just
-- before, lets the node announce itself in the background, if the user wants announces at all.
pub late_callback :
    (s : Service)
    → s.fg_timer ≡ some true
    → let s' = run s (expires ∷ fg false ∷ calls_back ∷ []) in
      (s'.foreground ≡ false) × (should_announce s' ≡ s.want_announce)
unfolding run set_foreground expire_timer callback should_announce
late_callback s h = ground arith
