-- ===== src/Syncthing/Events.antt =====
-- internal/syncthing/events.go: the loop over Syncthing's events, one answer at a time.
use we_sync.Base.{
  ℕ, ◌+◌, Bool, false, not, ◌||◌, List, [], ◌∷◌, String, if◌then◌else◌, ◌is◌, ◌≡◌, refl, arith,
}

pub record Event : Type 0 where
  pub id : ℕ
  pub type : String
  pub folder : String

pub data Response : Type 0 where
  unreachable : Response
  status_not_ok : Response
  garbled : Response
  events : List Event → Response

-- `since`, the folders whose scan progress was recorded, and the number of calls of `onChange`.
pub record Watch : Type 0 where
  pub since : ℕ
  pub scanned : List String
  pub changes : ℕ

abbrev pub last_id : ℕ → List Event → ℕ
last_id since [] = since
last_id since (e ∷ es) = last_id e.id es

unfoldable pub is_progress : Event → Bool
is_progress e = e.type is "FolderScanProgress"

abbrev pub scanned_of : List String → List Event → List String
scanned_of fs [] = fs
scanned_of fs (e ∷ es) = if is_progress e then e.folder ∷ scanned_of fs es else scanned_of fs es

abbrev pub state_changed : List Event → Bool
state_changed [] = false
state_changed (e ∷ es) = not (is_progress e) || state_changed es

unfoldable pub on_response : Watch → Response → Watch
on_response w unreachable = record w { since = 0 }
on_response w status_not_ok = w
on_response w garbled = w
on_response w (events []) = w
on_response w (events (e ∷ es)) = record {
  since = last_id e.id es;
  scanned = scanned_of w.scanned (e ∷ es);
  changes = if state_changed (e ∷ es) then w.changes + 1 else w.changes;
}

unfoldable pub watch_events : Watch → List Response → Watch
unfolding on_response
watch_events w [] = w
watch_events w (r ∷ rs) = watch_events (on_response w r) rs

-- The answers that hold a change of state.
abbrev pub has_change : Response → Bool
has_change (events es) = state_changed es
has_change _ = false

abbrev pub count_changes : List Response → ℕ
count_changes [] = 0
count_changes (r ∷ rs) = if has_change r then count_changes rs + 1 else count_changes rs

on_response-changes :
    (w : Watch) (r : Response)
    → (on_response w r).changes ≡ (if has_change r then w.changes + 1 else w.changes)
unfolding on_response
on_response-changes w unreachable = refl
on_response-changes w status_not_ok = refl
on_response-changes w garbled = refl
on_response-changes w (events []) = refl
on_response-changes w (events (e ∷ es)) = refl

-- `onChange` is called once for each answer with an event other than a scan's progress, and for no
-- other answer, errors included.
pub watch_events-changes :
    (w : Watch) (rs : List Response) → (watch_events w rs).changes ≡ count_changes rs + w.changes
unfolding watch_events
watch_events-changes w [] = omega arith
watch_events-changes w (r ∷ rs) =
    ground (arith, watch_events-changes (on_response w r) rs, on_response-changes w r)
