-- ===== src/Api/Conflicts.antt =====
-- internal/api/folder_extras.go: the conflict files of a folder, and its ignore patterns. A path is
-- the list of its bytes. `clean`, `join`, `last_of`, `dir_of` and `rel` stand for `filepath.Clean`,
-- `Join`, `Base`, `Dir` and `Rel`, and the separator is a slash, as on every system but Windows.
pub mod Original
pub mod Inside
mod Tests
use we_sync.Base.{
  ℕ, suc, Bool, true, false, not, ◌&&◌, ◌||◌, List, [], ◌∷◌, ◌++◌, Option, none, some, String,
  if◌then◌else◌, ◌is◌, ◌==◌, codes, is_empty, any,
}
use we_sync.Api.Pairing.{
  Status, success, no_content, bad_request, not_found, bad_gateway, server_error,
}

abbrev pub Bytes : Type 0
Bytes = List ℕ

abbrev pub starts_with : Bytes → Bytes → Bool
starts_with s [] = true
starts_with [] (d ∷ p) = false
starts_with (c ∷ s) (d ∷ p) = (c == d) && starts_with s p

abbrev pub same_bytes : Bytes → Bytes → Bool
same_bytes [] [] = true
same_bytes (c ∷ s) (d ∷ p) = (c == d) && same_bytes s p
same_bytes _ _ = false

-- What follows a prefix.
abbrev pub after_prefix : Bytes → Bytes → Bytes
after_prefix s [] = s
after_prefix [] (d ∷ p) = []
after_prefix (c ∷ s) (d ∷ p) = after_prefix s p

-- `strings.Index` with the two slices around it.
unfoldable pub cut : Bytes → Bytes → Option (Bytes × Bytes)
cut p [] = if is_empty p then some ([], []) else none
cut p (c ∷ s) =
    let later : Option (Bytes × Bytes) = elim (cut p s) [
      | none ↦ none
      | some (before, after) ↦ some (c ∷ before, after)
    ] in
    if starts_with (c ∷ s) p then some ([], after_prefix (c ∷ s) p) else later

unfoldable pub contains : Bytes → Bytes → Bool
contains p [] = is_empty p
contains p (c ∷ s) = let later = contains p s in if starts_with (c ∷ s) p then true else later

-- `strings.LastIndex` of a dot, and the slice from it.
unfoldable pub from_last_dot : Bytes → Option Bytes
from_last_dot [] = none
from_last_dot (c ∷ s) = elim (from_last_dot s) [
  | some t ↦ some t
  | none ↦ if c == 46 then some (c ∷ s) else none
]

-- ".sync-conflict-" but for its dot, and with it.
abbrev pub sync_conflict : Bytes
sync_conflict = codes "sync-conflict-"

abbrev pub marker : Bytes
marker = 46 ∷ sync_conflict

unfoldable pub conflict_original : Bytes → Bytes
unfolding cut from_last_dot
conflict_original name = elim (cut marker name) [
  | none ↦ name
  | some (base, after) ↦ elim (from_last_dot after) [ some ext ↦ base ++ ext | none ↦ base ]
]

pub record ConflictFile : Type 0 where
  pub path : Bytes
  pub original_path : Bytes

-- A file as the walk comes to it.
pub record Entry : Type 0 where
  pub path : Bytes
  pub has_error : Bool
  pub is_dir : Bool

pub record Paths : Type 0 where
  pub clean : Bytes → Bytes
  pub join : Bytes → Bytes → Bytes
  pub last_of : Bytes → Bytes
  pub dir_of : Bytes → Bytes
  pub rel : Bytes → Bytes → Bytes

-- A folder as the handlers list it.
pub record FolderPath : Type 0 where
  pub id : String
  pub path : Bytes

abbrev pub folder_by_id : List FolderPath → String → Option Bytes
folder_by_id [] id = none
folder_by_id (f ∷ fs) id = let rest = folder_by_id fs id in if f.id is id then some f.path else rest

module _ (os : Paths) where
  unfoldable pub scan_conflicts : Bytes → List Entry → List ConflictFile
  unfolding contains conflict_original
  scan_conflicts folder [] = []
  scan_conflicts folder (e ∷ es) =
      let rest = scan_conflicts folder es in
      let name = os.last_of e.path in
      let r = os.rel folder e.path in
      if e.has_error || e.is_dir || not (contains marker name)
      then rest
      else record { path = r; original_path = os.join (os.dir_of r) (conflict_original name) }
        ∷ rest

  -- The checks of `FolderConflictDelete`, and the removal; `removes` says whether `os.Remove` meets no
  -- error.
  unfoldable pub checked : Bool → Bytes → Bytes → Option Bytes × Status
  unfolding contains
  checked removes base target =
      if not (same_bytes target base) && not (starts_with target (base ++ (47 ∷ [])))
      then (none, bad_request)
      else if not (contains marker (os.last_of target))
      then (none, bad_request)
      else if removes
      then (some target, no_content)
      else (none, server_error)

  -- `FolderConflictDelete`: the file that is removed, if any, and the status.
  unfoldable pub folder_conflict_delete :
      List FolderPath → Bool → String → Bytes → Option Bytes × Status
  unfolding checked
  folder_conflict_delete folders removes id path =
      if (id is "") || is_empty path then (none, bad_request) else (elim (folder_by_id folders id) [
        | none ↦ (none, not_found)
        | some folder ↦
            let base = os.clean folder in checked removes base (os.clean (os.join base path))
      ])

-- `FolderIgnoresGet` and `FolderIgnoresSet`, with Syncthing's answers as arguments; `none` is a body
-- that does not decode. The second answers what Syncthing is asked to store.
unfoldable pub folder_ignores_get : (String → Option (List String)) → String → List String × Status
folder_ignores_get patterns id =
    if id is ""
    then ([], bad_request)
    else (elim (patterns id) [ none ↦ ([], bad_gateway) | some ps ↦ (ps, success) ])

unfoldable pub folder_ignores_set :
    (String → List String → Bool)
    → String
    → Option (List String)
    → Option (String × List String) × Status
folder_ignores_set stores id none = (none, bad_request)
folder_ignores_set stores id (some ps) =
    if id is ""
    then (none, bad_request)
    else if stores id ps
    then (some (id, ps), no_content)
    else (some (id, ps), bad_gateway)
