-- ===== src/Mobile/Poll/Same.antt =====
-- A poll finds no change exactly if no directory has come, gone or got another time.
use we_sync.Base.{
  ℕ, suc, ◌≡◌, refl, ◌↔◌, Bool, true, false, not, ◌&&◌, List, [], ◌∷◌, Option, none, some, String,
  Map, lookup, delete, lookup-delete, IsUnique, insert-IsUnique, delete-IsUnique, if◌then◌else◌,
  is_iff, is_self, length, arith, text_append,
}
use we_sync.Mobile.Poll.{
  Entry, Entries, entry, unreadable, nothing, also, scan, scan_all, scan_folders, differs,
  record_time, dir_snap_changed, poll_check_changed, is_hidden,
}

length-delete-none : (k : String) (m : Map ℕ) → lookup k m ≡ none → length (delete k m) ≡ length m
unfolding lookup delete
length-delete-none k [] h = refl
length-delete-none k ((j, v) ∷ m) h = ground (arith, h, length-delete-none k m)

length-delete :
    (k : String) (v : ℕ) (m : Map ℕ)
    → IsUnique m
    → lookup k m ≡ some v
    → suc (length (delete k m)) ≡ length m
unfolding lookup delete
length-delete k v [] u h = absurd (ground (arith, h))
length-delete k v ((j, w) ∷ m) u h =
    ground (arith, h, u.0, is_iff j k, length-delete k v m u.1, length-delete-none k m)

-- A path that the new snapshot lacks makes no difference.
differs-delete :
    (p : String) (old next : Map ℕ)
    → lookup p next ≡ none
    → differs (delete p old) next ≡ differs old next
unfolding lookup differs
differs-delete p old [] h = refl
differs-delete p old ((q, t) ∷ next) h =
    ground (arith, h, is_iff p q, is_self q, lookup-delete q p old, differs-delete p old next)

abbrev pub Same : Map ℕ → Map ℕ → Type 0
Same old next = (q : String) → lookup q old ≡ lookup q next

same-differs :
    (old next : Map ℕ) (q : String)
    → IsUnique old
    → IsUnique next
    → length old ≡ length next
    → differs old next ≡ false
    → lookup q old ≡ lookup q next
unfolding lookup differs
same-differs [] [] q u v l d = refl
same-differs ((j, w) ∷ old) [] q u v l d = absurd (omega (arith, l))
same-differs old ((p, t) ∷ next) q u v l d =
    let found : lookup p old ≡ some t = ground (arith, d) in
    let shorter = length-delete p t old u found in
    let rest =
      same-differs (delete p old) next q (delete-IsUnique p old u) v.1 (omega (arith, l, shorter))
        (ground (arith, d, differs-delete p old next v.0)) in
    ground (arith, rest, found, is_iff p q, lookup-delete q p old)

differs-Same :
    (old next : Map ℕ)
    → IsUnique old
    → IsUnique next
    → Same old next
    → (length old ≡ length next) × (differs old next ≡ false)
unfolding lookup differs
differs-Same [] [] u v s = (refl, refl)
differs-Same ((j, w) ∷ old) [] u v s = absurd (ground (arith, s j, is_self j))
differs-Same old ((p, t) ∷ next) u v s =
    let found : lookup p old ≡ some t = ground (arith, s p, is_self p) in
    let (l, d) =
      differs-Same (delete p old) next (delete-IsUnique p old u) v.1
        (λ q. ground (arith, s q, lookup-delete q p old, is_iff p q, v.0)) in
    (
      omega (arith, l, length-delete p t old u found),
      ground (arith, found, d, differs-delete p old next v.0),
    )

record_time-IsUnique :
    (path : String) (t : Option ℕ) (snap : Map ℕ)
    → IsUnique snap
    → IsUnique (record_time path t snap)
record_time-IsUnique path none snap u = u
record_time-IsUnique path (some t) snap u = insert-IsUnique path t snap u

if-IsUnique : (b : Bool) (m n : Map ℕ) → IsUnique m → IsUnique n → IsUnique (if b then m else n)
if-IsUnique true m n u v = u
if-IsUnique false m n u v = v

mutual
  unfolding scan scan_all

  scan-IsUnique :
      (is_root : Bool) (path : String) (e : Entry) (snap : Map ℕ)
      → IsUnique snap
      → IsUnique (scan is_root path e snap)
  scan-IsUnique is_root path unreadable snap u = u
  scan-IsUnique is_root path (entry name false t es) snap u = u
  scan-IsUnique is_root path (entry name true t es) snap u =
      if-IsUnique (not is_root && is_hidden name) snap (scan_all path es (record_time path t snap))
        u (scan_all-IsUnique path es (record_time path t snap) (record_time-IsUnique path t snap u))

  scan_all-IsUnique :
      (path : String) (es : Entries) (snap : Map ℕ)
      → IsUnique snap
      → IsUnique (scan_all path es snap)
  scan_all-IsUnique path nothing snap u = u
  scan_all-IsUnique path (also unreadable es) snap u = scan_all-IsUnique path es snap u
  scan_all-IsUnique path (also (entry name dir t below) es) snap u =
      scan_all-IsUnique path es
        (scan false (text_append path (text_append "/" name)) (entry name dir t below) snap)
        (scan-IsUnique false (text_append path (text_append "/" name)) (entry name dir t below) snap
          u)

scan_folders-IsUnique :
    (fs : List (String × Entry)) (snap : Map ℕ) → IsUnique snap → IsUnique (scan_folders fs snap)
unfolding scan_folders
scan_folders-IsUnique [] snap u = u
scan_folders-IsUnique ((root, e) ∷ fs) snap u =
    scan_folders-IsUnique fs (scan true root e snap) (scan-IsUnique true root e snap u)

-- After a poll that found the folders `f ∷ fs`, whatever was known before, a poll that finds the
-- folders `g ∷ gs` reports no change exactly if both found the same directories with the same times.
pub poll_check_changed-Same :
    (dirs : Option (Map ℕ)) (f g : String × Entry) (fs gs : List (String × Entry))
    → (poll_check_changed (poll_check_changed dirs (some (f ∷ fs))).0 (some (g ∷ gs))).1 ≡ false
      ↔ Same (scan_folders (f ∷ fs) []) (scan_folders (g ∷ gs) [])
unfolding poll_check_changed dir_snap_changed
poll_check_changed-Same dirs f g fs gs = by_dirs dirs
  where
    old : Map ℕ
    old = scan_folders (f ∷ fs) []

    next : Map ℕ
    next = scan_folders (g ∷ gs) []

    changed : (dir_snap_changed old next ≡ false) ↔ Same old next
    changed =
        let u = scan_folders-IsUnique (f ∷ fs) [] tt in
        let v = scan_folders-IsUnique (g ∷ gs) [] tt in
        (
          λ h q.
              unfold dir_snap_changed in
              same-differs old next q u v (ground (arith, h)) (ground (arith, h)),
          λ s. unfold dir_snap_changed in ground (arith, differs-Same old next u v s),
        )

    by_dirs :
        (d : Option (Map ℕ))
        → (poll_check_changed (poll_check_changed d (some (f ∷ fs))).0 (some (g ∷ gs))).1 ≡ false
          ↔ Same old next
    by_dirs none = unfold poll_check_changed in changed
    by_dirs (some m) = unfold poll_check_changed in changed
