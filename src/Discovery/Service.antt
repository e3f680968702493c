-- ===== src/Discovery/Service.antt =====
-- internal/discovery/service.go. The runtime's timers, channels and goroutines are parts of the
-- state: `fg_timer` is none for a nil timer, `some true` for one that is pending, `some false` for
-- one that has expired; `orphans` counts pending timers that the service holds no more, `started`
-- the timer callbacks that have been started and have not yet run. A time is in nanoseconds.
use we_sync.Base.{
  ℕ, zero, suc, ◌-◌, ◌*◌, Bool, true, false, ◌&&◌, List, [], ◌∷◌, ◌++◌, Option, none, some, String,
  Map, lookup, insert, delete, if◌then◌else◌, ltb, leb, length, ◌is◌,
}
use we_sync.Mobile.Decision.{second}
use we_sync.Node.Peer.{Peer}

abbrev pub announce_interval : ℕ
announce_interval = 5 * second

abbrev pub grace_multiplier : ℕ
grace_multiplier = 3

abbrev pub grace_period : ℕ
grace_period = announce_interval * grace_multiplier

-- The capacity of `Peers` and of `PeerGone`.
abbrev pub capacity : ℕ
capacity = 16

pub record Service : Type 0 where
  pub want_announce : Bool
  pub foreground : Bool
  pub announce_ready : Bool
  pub fg_timer : Option Bool
  pub orphans : ℕ
  pub started : ℕ
  pub last_seen : Map ℕ
  pub last_seen_addr : Map ℕ
  pub peers : List Peer
  pub peer_gone : List String
  pub announce_now : Bool
  pub sent : ℕ

unfoldable pub new : Service
new = record {
  want_announce = false;
  foreground = false;
  announce_ready = false;
  fg_timer = none;
  orphans = 0;
  started = 0;
  last_seen = [];
  last_seen_addr = [];
  peers = [];
  peer_gone = [];
  announce_now = false;
  sent = 0;
}

unfoldable pub should_announce : Service → Bool
should_announce s = s.want_announce && s.announce_ready

-- `kickIf`: the channel holds one kick.
unfoldable pub kick_if : Service → Bool → Service
kick_if s on = if on then record s { announce_now = true } else s

unfoldable pub set_want_announce : Service → Bool → Service
unfolding kick_if should_announce
set_want_announce s v = let s' = record s { want_announce = v } in kick_if s' (should_announce s')

-- A pending timer that is held is stopped; a callback that has been started is not.
unfoldable pub set_foreground : Service → Bool → Service
set_foreground s true = record s { foreground = true; fg_timer = some true }
set_foreground s false = record s { foreground = false; fg_timer = none; announce_ready = false }

-- The two seconds of the held timer, or of an orphan, are over.
unfoldable pub expire_timer : Service → Service
expire_timer s = elim s.fg_timer [
  | none ↦ s
  | some pending ↦
      if pending then record s { fg_timer = some false; started = suc s.started } else s
]

unfoldable pub expire_orphan : Service → Service
expire_orphan s = elim s.orphans [
  | zero ↦ s
  | suc n ↦ record s { orphans = n; started = suc s.started }
]

-- The body of the callback. It drops whatever timer the service holds.
unfoldable pub callback : Service → Service
unfolding kick_if should_announce
callback s = elim s.started [
  | zero ↦ s
  | suc n ↦
      let s' = record s {
        started = n;
        orphans = elim s.fg_timer [
          | none ↦ s.orphans
          | some pending ↦ if pending then suc s.orphans else s.orphans
        ];
        fg_timer = none;
        announce_ready = true;
      } in
      kick_if s' (should_announce s')
]

-- The cases of `Run`: the announce ticker, the kick, an announce that was heard, the expiry ticker.
unfoldable pub on_announce_tick : Service → Service
unfolding should_announce
on_announce_tick s = if should_announce s then record s { sent = suc s.sent } else s

unfoldable pub on_announce_now : Service → Service
unfolding should_announce
on_announce_now s =
    if s.announce_now
    then (let s' = record s { announce_now = false } in
        if should_announce s' then record s' { sent = suc s.sent } else s')
    else s

unfoldable pub on_peer : Service → Peer → ℕ → Service
on_peer s p now = record s {
  last_seen = insert p.sid now s.last_seen;
  last_seen_addr = if p.addr is "" then s.last_seen_addr else insert p.addr now s.last_seen_addr;
  peers = if s.foreground && ltb (length s.peers) capacity then s.peers ++ (p ∷ []) else s.peers;
}

unfoldable pub is_silent : ℕ → ℕ → Bool
is_silent now t = ltb grace_period (now - t)

unfoldable pub prune : ℕ → Map ℕ → Map ℕ
unfolding is_silent
prune now [] = []
prune now ((k, t) ∷ m) = if is_silent now t then prune now m else (k, t) ∷ prune now m

unfoldable pub expired_of : ℕ → Map ℕ → List String
unfolding is_silent
expired_of now [] = []
expired_of now ((k, t) ∷ m) = if is_silent now t then k ∷ expired_of now m else expired_of now m

-- The loop that reports the silent SIDs: one that the full channel does not take is kept.
unfoldable pub report_one : Service → String → Service
report_one s sid =
    if ltb (length s.peer_gone) capacity
    then record s { peer_gone = s.peer_gone ++ (sid ∷ []); last_seen = delete sid s.last_seen }
    else s

unfoldable pub report : Service → List String → Service
unfolding report_one
report s [] = s
report s (sid ∷ sids) = report (report_one s sid) sids

unfoldable pub on_expiry : Service → ℕ → Service
unfolding prune expired_of report
on_expiry s now =
    report (record s { last_seen_addr = prune now s.last_seen_addr }) (expired_of now s.last_seen)

unfoldable pub present_addr : Service → String → ℕ → Bool
unfolding is_silent
present_addr s addr now = if addr is "" then false else (elim (lookup addr s.last_seen_addr) [
  | none ↦ false
  | some t ↦ leb (now - t) grace_period
])

-- Everything that happens to a service; a reader of a channel takes its oldest item.
pub data Step : Type 0 where
  want : Bool → Step
  fg : Bool → Step
  expires expires_orphan calls_back : Step
  ticks kicks : Step
  hears : Peer → ℕ → Step
  expiry : ℕ → Step
  reads_peer reads_gone : Step

abbrev pub rest_of {ℓ} : {A : Type ℓ} → List A → List A
rest_of [] = []
rest_of (x ∷ xs) = xs

unfoldable pub step : Service → Step → Service
step s (want v) = set_want_announce s v
step s (fg v) = set_foreground s v
step s expires = expire_timer s
step s expires_orphan = expire_orphan s
step s calls_back = callback s
step s ticks = on_announce_tick s
step s kicks = on_announce_now s
step s (hears p now) = on_peer s p now
step s (expiry now) = on_expiry s now
step s reads_peer = record s { peers = rest_of s.peers }
step s reads_gone = record s { peer_gone = rest_of s.peer_gone }

unfoldable pub run : Service → List Step → Service
unfolding step
run s [] = s
run s (x ∷ xs) = run (step s x) xs
