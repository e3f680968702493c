-- ===== src/Mobile/Poll.antt =====
-- mobile/poll_watcher.go: the comparison of the folders' directory times. A directory tree is what
-- `filepath.WalkDir` sees of it: an entry whose times cannot be read has none, and a directory that
-- cannot be listed has no children.
pub mod Same
use we_sync.Base.{
  ℕ, Bool, true, false, not, ◌&&◌, ◌||◌, List, [], ◌∷◌, Option, none, some, String, Map, lookup,
  insert, if◌then◌else◌, ◌is◌, ◌==◌, length, prefix, text_append,
}

mutual
  pub data Entry : Type 0 where
    entry : String → Bool → Option ℕ → Entries → Entry  -- name, whether a directory, time, children
    unreadable : Entry

  pub data Entries : Type 0 where
    nothing : Entries
    also : Entry → Entries → Entries

abbrev pub is_hidden : String → Bool
is_hidden name = prefix 1 name is "."

abbrev pub record_time : String → Option ℕ → Map ℕ → Map ℕ
record_time path none snap = snap
record_time path (some t) snap = insert path t snap

-- `scanDirMtimes`: the walk below a root, and over a list of children. A hidden directory is skipped,
-- unless it is the root.
unfoldable mutual
  pub scan : Bool → String → Entry → Map ℕ → Map ℕ
  scan is_root path unreadable snap = snap
  scan is_root path (entry name false t es) snap = snap
  scan is_root path (entry name true t es) snap =
      let below = scan_all path es (record_time path t snap) in
      if not is_root && is_hidden name then snap else below

  pub scan_all : String → Entries → Map ℕ → Map ℕ
  scan_all path nothing snap = snap
  scan_all path (also unreadable es) snap = scan_all path es snap
  scan_all path (also (entry name dir t below) es) snap =
      scan_all path es
        (scan false (text_append path (text_append "/" name)) (entry name dir t below) snap)

unfoldable pub scan_folders : List (String × Entry) → Map ℕ → Map ℕ
scan_folders [] snap = snap
scan_folders ((root, e) ∷ fs) snap = scan_folders fs (scan true root e snap)

-- The loop of `dirSnapChanged`.
unfoldable pub differs : Map ℕ → Map ℕ → Bool
differs old [] = false
differs old ((path, t) ∷ next) =
    (elim (lookup path old) [ none ↦ true | some u ↦ not (u == t) ]) || differs old next

unfoldable pub dir_snap_changed : Map ℕ → Map ℕ → Bool
unfolding differs
dir_snap_changed old next = if not (length old == length next) then true else differs old next

-- The snapshot, which is none at a cold start, and the answer. `folders` is none if Syncthing does
-- not answer.
unfoldable pub poll_check_changed :
    Option (Map ℕ) → Option (List (String × Entry)) → Option (Map ℕ) × Bool
unfolding dir_snap_changed
poll_check_changed dirs none = (dirs, false)
poll_check_changed dirs (some []) = (dirs, false)
poll_check_changed dirs (some (f ∷ fs)) =
    let next = scan_folders (f ∷ fs) [] in
    elim dirs [ none ↦ (some next, true) | some old ↦ (some next, dir_snap_changed old next) ]

unfoldable pub reset_poll_snapshot : Option (Map ℕ) → Option (Map ℕ)
reset_poll_snapshot dirs = none
