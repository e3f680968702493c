-- ===== src/Mobile/Migration/First.antt =====
-- What the migration does, told by its first clean attempt.
use we_sync.Base.{
  ℕ, zero, suc, ◌≡◌, refl, Bool, true, false, not, ◌||◌, List, [], ◌∷◌, ◌++◌, none, some, String,
  if◌then◌else◌, is_empty, any, all, take, arith, Option-cases, inl, inr,
}
use we_sync.Syncthing.{Folder}
use we_sync.Mobile.Migration.{
  max_attempts, Attempt, unpause_each, nothing, attempt, force_unpause_all_folders_once,
}

abbrev paused_ids : List Folder → List String
paused_ids [] = []
paused_ids (f ∷ fs) = let rest = paused_ids fs in if f.paused then f.id ∷ rest else rest

abbrev has_paused : List Folder → Bool
has_paused fs = any (λ f. f.paused) fs

-- Each folder that is paused can be cleared.
abbrev clears_all : (String → Bool) → List Folder → Bool
clears_all clears fs = all (λ f. not f.paused || clears f.id) fs

walk_lem :
    (clears : String → Bool) (fs : List Folder)
    → let w = unpause_each clears fs in
      (w.calls ≡ paused_ids fs)
      × (w.any_failed ≡ not (clears_all clears fs))
      × (w.any_failed ≡ false → w.any_unpaused ≡ has_paused fs)
unfolding unpause_each
walk_lem clears [] = (refl, refl, λ h. refl)
walk_lem clears (f ∷ fs) =
    let ih = walk_lem clears fs in
    (ground (arith, ih.0), ground (arith, ih.1), λ h. ground (arith, h, ih.1, ih.2))

-- Syncthing gives the folders, and clears each that is paused.
abbrev pub is_clean : Attempt → Bool
is_clean a = elim a.folders [ none ↦ false | some fs ↦ clears_all a.clears fs ]

-- What an attempt asks for: the paused folders that it is given.
abbrev pub asked : Attempt → List String
asked a = elim a.folders [ none ↦ [] | some fs ↦ paused_ids fs ]

-- The calls of the attempts up to the first clean one, and whether that one has any.
abbrev pub asked_until : List Attempt → List String
asked_until [] = []
asked_until (a ∷ tries) =
    let rest = asked_until tries in if is_clean a then asked a else asked a ++ rest

abbrev pub first_asks : List Attempt → Bool
first_asks [] = false
first_asks (a ∷ tries) =
    let rest = first_asks tries in if is_clean a then not (is_empty (asked a)) else rest

has_paused-ids : (fs : List Folder) → has_paused fs ≡ not (is_empty (paused_ids fs))
has_paused-ids [] = refl
has_paused-ids (f ∷ fs) = ground (arith, has_paused-ids fs)

attempt-first :
    (n : ℕ) (tries : List Attempt)
    → let o = attempt n tries in
      let seen = take n tries in
      (o.marks ≡ any is_clean seen) × (o.calls ≡ asked_until seen) × (o.logged ≡ first_asks seen)
unfolding attempt
attempt-first zero tries = (refl, refl, refl)
attempt-first (suc n) [] = (refl, refl, refl)
attempt-first (suc n) (a ∷ tries) =
    let ih = attempt-first n tries in
    elim (Option-cases a.folders) [
      | inl h ↦ (ground (arith, h, ih.0), ground (arith, h, ih.1), ground (arith, h, ih.2))
      | inr (fs, h) ↦
          let w = walk_lem a.clears fs in
          let p = has_paused-ids fs in
          (
            ground (arith, h, ih.0, w.1),
            ground (arith, h, ih.1, w.0, w.1),
            ground (arith, h, ih.2, w.0, w.1, w.2, p),
          )
    ]

-- A migration that the store does not have as done asks for the mark exactly if one of its first
-- twenty attempts is clean: Syncthing gives the folders, and clears each that is paused. Its calls are
-- for the paused folders of the attempts up to the first clean one, in their order, and it logs that
-- it has unpaused folders exactly if that attempt has some. Without a store, or once it is done, it
-- asks for nothing.
pub force_unpause-first :
    (tries : List Attempt)
    → let o = force_unpause_all_folders_once (some false) tries in
      let seen = take max_attempts tries in
      (o.marks ≡ any is_clean seen)
      × (o.calls ≡ asked_until seen)
      × (o.logged ≡ first_asks seen)
      × (force_unpause_all_folders_once (some true) tries ≡ nothing)
      × (force_unpause_all_folders_once none tries ≡ nothing)
unfolding force_unpause_all_folders_once
force_unpause-first tries = let o = attempt-first max_attempts tries in (o.0, o.1, o.2, refl, refl)
