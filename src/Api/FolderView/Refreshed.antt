-- ===== src/Api/FolderView/Refreshed.antt =====
-- What a refresh of the completion leaves of a device in the state of the node.
use we_sync.Base.{
  ◌≡◌, refl, ap, ◌∙◌, Bool, true, false, List, [], ◌∷◌, map, Option, none, some, String, Map,
  IsUnique, lookup, lookup-insert, insert, has, All, is_iff, is_self, arith, Option-cases, inl, inr,
}
use we_sync.Node.State.{State, FolderPeerInfo, folder_accepted, wire_accepted}
use we_sync.Syncthing.{Folder}
use we_sync.Api.Completion.{
  Answers, Progress, Maps, Gathered, Tracker, empty, refresh_device, needs, has_accepted, gather,
  gather_folders, refresh_folder_completion,
}
use we_sync.Api.Gather.{gather-step, info_of, is_listed, step_of}
use we_sync.Api.FolderView.{info_for}

-- A folder as the refresh sees it: its ID and its devices.
abbrev pub row_of : Folder → String × List String
row_of f = (f.id, map (λ d. d.device_id) f.devices)

-- Syncthing answers for the device that it needs data.
abbrev pub answered_need : Answers → String → String → Bool
answered_need a f d = elim (a.completion_of f d) [ none ↦ false | some c ↦ needs c ]

-- The maps with one more folder.
abbrev with_folder : String → Gathered → Maps → Maps
with_folder f g m = record {
  accepted = insert f g.accepted m.accepted;
  peer_info = insert f g.info m.peer_info;
  next_progress = insert f g.progress m.next_progress;
}

abbrev or_map {ℓ} : {V : Type ℓ} → Option V → Option V → Option V
or_map old none = old
or_map old (some m) = some m

module _ (a : Answers) (prev : Map (Map Progress)) (self_id : String) where
  -- What is gathered of the folder, if it is among the folders.
  abbrev gathered_of : String → Option (List String) → Option Gathered
  gathered_of f none = none
  gathered_of f (some ds) = some (gather a prev self_id f empty ds)

  abbrev info_in : Option Gathered → Option (Map FolderPeerInfo)
  info_in none = none
  info_in (some g) = some g.info

  abbrev accepted_in : Option Gathered → Option (Map Bool)
  accepted_in none = none
  accepted_in (some g) = some g.accepted

  gather_folders-lookup :
      (m : Maps) (fs : Map (List String)) (f : String)
      → IsUnique fs
      → let r = gather_folders a prev self_id m fs in
        let g = gathered_of f (lookup f fs) in
        (lookup f r.peer_info ≡ or_map (lookup f m.peer_info) (info_in g))
        × (lookup f r.accepted ≡ or_map (lookup f m.accepted) (accepted_in g))
  unfolding gather_folders lookup
  gather_folders-lookup m [] f u = (refl, refl)
  gather_folders-lookup m ((g, ds) ∷ fs) f u =
      let got = gather a prev self_id g empty ds in
      let next = with_folder g got m in
      let ih = gather_folders-lookup next fs f u.1 in
      (
        ground (arith, is_iff g f, u.0, ih.0, lookup-insert f g got.info m.peer_info),
        ground (arith, is_iff g f, u.0, ih.1, lookup-insert f g got.accepted m.accepted),
      )

-- The folder is in the list, with its devices.
abbrev pub IsRow : Map (List String) → Folder → Type 0
IsRow rows f = lookup f.id rows ≡ some (row_of f).1

skip-IsRow :
    (r : Map (List String)) (g : Folder) (fs : List Folder)
    → lookup g.id r ≡ none
    → All (IsRow r) fs
    → All (IsRow (row_of g ∷ r)) fs
unfolding lookup
skip-IsRow r g [] free h = tt
skip-IsRow r g (f ∷ fs) free h =
    (ground (arith, is_iff g.id f.id, free, h.0), skip-IsRow r g fs free h.1)

pub rows-IsRow : (fs : List Folder) → IsUnique (map row_of fs) → All (IsRow (map row_of fs)) fs
unfolding lookup
rows-IsRow [] u = tt
rows-IsRow (f ∷ fs) u =
    (ground (arith, is_self f.id), skip-IsRow (map row_of fs) f fs u.0 (rows-IsRow fs u.1))

info_for-need :
    (a : Answers) (prev : Map (Map Progress)) (s : State) (f d : String) (m : Map FolderPeerInfo)
    → lookup f s.folder_peer ≡ some m
    → lookup d m ≡ info_of none (step_of a prev f d)
    → (info_for s f d).need ≡ answered_need a f d
unfolding info_for refresh_device
info_for-need a prev s f d m at_f at_d = elim (Option-cases (a.completion_of f d)) [
  | inl h ↦ ground (arith, h, at_f, at_d)
  | inr (c, h) ↦ ground (arith, h, at_f, at_d)
]

module _ (t : Tracker) (self_id : String) (a : Answers) (rows : Map (List String))
    (idle : t.refreshing ≡ false) (listed : a.folders ≡ some rows) where
  abbrev refreshed : State
  refreshed = (refresh_folder_completion t self_id a).state

  abbrev refreshed_maps : Maps
  refreshed_maps =
      gather_folders a t.progress self_id
        (record { accepted = []; peer_info = []; next_progress = [] }) rows

  refreshed-maps :
      (refreshed.folder_peer ≡ refreshed_maps.peer_info)
      × (refreshed.folder_accepted ≡ refreshed_maps.accepted)
      × (refreshed.wire_accepted ≡ t.state.wire_accepted)
  unfolding refresh_folder_completion
  refreshed-maps = elim (Option-cases a.last_seen) [
    | inl h ↦ rw (idle, listed, h) (refl, refl, refl)
    | inr (m, h) ↦ rw (idle, listed, h) (refl, refl, refl)
  ]

  -- What the refresh keeps of one device of one folder.
  pub refreshed-device :
      (f d : String) (ds : List String)
      → IsUnique rows
      → lookup f rows ≡ some ds
      → is_listed self_id d ds ≡ true
      → ((info_for refreshed f d).need ≡ answered_need a f d)
        × (has d (folder_accepted refreshed f) ≡ has_accepted a f d)
        × (has d (wire_accepted refreshed f) ≡ has d (wire_accepted t.state f))
  unfolding info_for folder_accepted wire_accepted has lookup
  refreshed-device f d ds u at_f at_d =
      let start : Maps = record { accepted = []; peer_info = []; next_progress = [] } in
      let maps = gather_folders-lookup a t.progress self_id start rows f u in
      let step = gather-step a t.progress self_id f d ds in
      let kept = refreshed-maps in
      let got = gather a t.progress self_id f empty ds in
      let peer : lookup f refreshed.folder_peer ≡ some got.info =
        ap (lookup f) kept.0 ∙ ground (arith, at_f, maps.0) in
      let acc : lookup f refreshed.folder_accepted ≡ some got.accepted =
        ap (lookup f) kept.1 ∙ ground (arith, at_f, maps.1) in
      (
        info_for-need a t.progress refreshed f d got.info peer (ground (arith, at_d, step.1)),
        ground (arith, at_d, acc, step.0),
        ground (arith, kept.2),
      )
