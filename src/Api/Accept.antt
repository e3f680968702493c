-- ===== src/Api/Accept.antt =====
-- internal/api/folders.go: what an accepted folder leaves, and what an error does not.
use we_sync.Base.{Bool, true, false, List, ◌∷◌, ◌++◌, map, String, ◌is◌, any, ◌≡◌, has}
use mathlib.Core.List.{Perm}
use mathlib.Core.List.Perm
use we_sync.Node.State.{State, wire_accepted}
use we_sync.Syncthing.Folders.{PendingFolder}
use we_sync.Api.Backend.{Backend}
use we_sync.Api.App.{App, Notice, folder_accept}
use we_sync.Api.Pairing.{Status, success, no_content}
use we_sync.Api.FolderCalls.{AcceptRequest, co_offerers, new_folder}

abbrev pub offerers_of : List PendingFolder → AcceptRequest → List String
offerers_of pend r = r.device_id ∷ co_offerers r.folder_id r.device_id pend

abbrev pub is_error : Status → Bool
is_error success = false
is_error no_content = false
is_error s = true

-- One message to each.
abbrev pub to_each : List String → Notice → List (String × Notice)
to_each ds n = map (λ d. (d, n)) ds

module _ (b : Backend) (self_id : String) (norm : String → String) where
  -- What the end of an acceptance leaves.
  abbrev Marked : String → List String → List (String × Notice) → App b → Type 0
  Marked f ds sent c =
      ((e : String) → any (λ d. d is e) ds ≡ true → has e (wire_accepted c.state f) ≡ true)
      × (c.sent ≡ sent ++ to_each ds (folder_accept f))
      × (c.greets_all ≡ true)

  abbrev added : List PendingFolder → AcceptRequest → List String → App b → App b
  added pend r ds a = record a {
    st = (b.add_folder (new_folder b self_id norm pend r ds) a.st).0;
    folders_changed = true;
  }

  -- What an error leaves.
  abbrev Refused : App b → App b × Status → Type 0
  Refused a r =
      (is_error r.1 ≡ true)
      × (r.0.state ≡ a.state)
      × (r.0.sent ≡ a.sent)
      × (r.0.greets_all ≡ a.greets_all)

  abbrev Done : String → List String → App b → App b × Status → Type 0
  Done f ds a r = (r.1 ≡ no_content) × Marked f ds a.sent r.0
