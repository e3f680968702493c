-- ===== src/Mobile/Start.antt =====
-- mobile/wesync.go: `Start`, `Stop`, and the goroutine that `Start` leaves behind, whose steps run
-- between the calls. A context is known by a number.
use we_sync.Base.{
  ℕ, suc, ◌≡◌, true, false, List, [], ◌∷◌, Option, none, some, String, if◌then◌else◌, ◌is◌, arith,
}
use we_sync.Mobile.Decision.{PowerSettings}
use we_sync.Mobile.Gate.{
  Gate, PowerEvent, init_gate, mark_stopped, refresh_settings, emit_event, request_reconcile,
}
use we_sync.Mobile.Reconcile.{World}

-- Where a goroutine stands: before `EnsureReady`, before the start of the process, before `initGate`,
-- in `backend.Run`, or at its end.
pub data Phase : Type 0 where
  preparing launching handing serving ended : Phase

pub record Routine : Type 0 where
  pub ctx : ℕ
  pub exe : String
  pub phase : Phase

-- `cancel` is none for nil, and names the context that it cancels.
pub record App : Type 0 where
  pub cancel : Option ℕ
  pub next_ctx : ℕ
  pub cancelled : List ℕ
  pub last_err : Option String
  pub world : World

-- The app, its error, and the goroutine that is started.
unfoldable pub start_app : App → String → String → App × Option String × Option Routine
start_app a data_dir exe = elim a.cancel [
  | some c ↦ (a, none, none)
  | none ↦
      if data_dir is ""
      then (a, some "mobile.Start: dataDir is required", none)
      else if exe is ""
      then (a, some "mobile.Start: stExePath is required", none)
      else (
        record a { cancel = some a.next_ctx; next_ctx = suc a.next_ctx; last_err = none },
        none,
        some (record { ctx = a.next_ctx; exe = exe; phase = preparing }),
      )
]

unfoldable pub stop_app : App → App
stop_app a =
    let a' : App = elim a.cancel [
      | none ↦ a
      | some c ↦ record a { cancel = none; cancelled = c ∷ a.cancelled }
    ] in
    record a' { world = record { gate = mark_stopped a.world.gate; running = false } }

-- What a step of the goroutine meets: the error of the call, and what `initGate` finds in the store.
pub record Outcome : Type 0 where
  pub error : Option String
  pub store : Option (List PowerEvent)
  pub loaded : Option PowerSettings

abbrev failed : App → Option String → App
failed a e = elim e [ none ↦ a | some text ↦ record a { last_err = some text } ]

-- One step of the goroutine.
unfoldable pub advance : App → Routine → Outcome → App × Routine
advance a r o = elim r.phase [
  | preparing ↦
      (failed a o.error, record r { phase = elim o.error [ none ↦ launching | some e ↦ ended ] })
  | launching ↦ (elim o.error [
    | some e ↦ (record a { last_err = some e }, record r { phase = ended })
    | none ↦
        (record a { world = record (a.world) { running = true } }, record r { phase = handing })
  ])
  | handing ↦ (
    record a { world = record (a.world) { gate = init_gate a.world.gate r.exe o.store o.loaded } },
    record r { phase = serving },
  )
  | serving ↦ (record (failed a o.error) { cancel = none }, record r { phase = ended })
  | ended ↦ (a, r)
]

unfoldable pub advance_all : App → Routine → List Outcome → App × Routine
unfolding advance
advance_all a r [] = (a, r)
advance_all a r (o ∷ os) = let (a', r') = advance a r o in advance_all a' r' os

init_gate-path :
    (g : Gate) (exe : String) (opened : Option (List PowerEvent)) (loaded : Option PowerSettings)
    → (init_gate g exe opened loaded).st_exe_path ≡ exe
unfolding init_gate refresh_settings emit_event request_reconcile
init_gate-path g exe none loaded = ground arith
init_gate-path g exe (some rows) none = ground arith
init_gate-path g exe (some rows) (some p) = ground arith

-- A `Stop` that comes while the goroutine of `Start` has not started the process yet does not hold:
-- if the process starts, Syncthing runs afterwards, with the gate in charge again.
pub stop_app_overtaken :
    (a : App) (r : Routine) (o o' : Outcome)
    → r.phase ≡ launching
    → o.error ≡ none
    → let end = advance_all (stop_app a) r (o ∷ o' ∷ []) in
      (end.0.cancel ≡ none) × (end.0.world.running ≡ true) × (end.0.world.gate.st_exe_path ≡ r.exe)
unfolding advance_all advance stop_app
stop_app_overtaken a r o o' at ok =
    ground (arith, at, ok, init_gate-path (mark_stopped a.world.gate) r.exe o'.store o'.loaded)

-- After a `Start` whose goroutine fails to prepare, further calls of `Start` report success and start
-- nothing.
start_app_stuck :
    (a : App) (data_dir exe dir exe' : String) (o : Outcome) (r : Routine) (e : String)
    → (start_app a data_dir exe).2 ≡ some r
    → o.error ≡ some e
    → start_app (advance (start_app a data_dir exe).0 r o).0 dir exe'
      ≡ ((advance (start_app a data_dir exe).0 r o).0, none, none)
unfolding start_app advance
start_app_stuck a data_dir exe dir exe' o r e started bad = ground (arith, started, bad)
