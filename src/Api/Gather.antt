-- ===== src/Api/Gather.antt =====
-- What a refresh gathers of a folder, device by device.
use we_sync.Base.{
  ◌≡◌, refl, Bool, not, ◌&&◌, List, [], ◌∷◌, Option, none, some, String, Map, lookup, inl, inr,
  lookup-insert, or_else, has, if◌then◌else◌, any, ◌is◌, is_iff, arith, Option-cases,
}
use we_sync.Node.State.{FolderPeerInfo}
use we_sync.Api.Completion.{
  Progress, Answers, Gathered, empty, refresh_device, has_accepted, gather_device, gather,
}

-- The device is among the folder's devices, and is not this node.
abbrev pub is_listed : String → String → List String → Bool
is_listed self_id d ds = any (λ x. (x is d) && not (x is self_id)) ds

gather-accepted :
    (a : Answers) (prev : Map (Map Progress)) (self_id f d : String) (g : Gathered)
    (ds : List String)
    → lookup d (gather a prev self_id f g ds).accepted
      ≡ (if is_listed self_id d ds then some (has_accepted a f d) else lookup d g.accepted)
unfolding gather gather_device
gather-accepted a prev self_id f d g [] = refl
gather-accepted a prev self_id f d g (x ∷ ds) = ground (
  arith,
  is_iff x d,
  lookup-insert d x (has_accepted a f x) g.accepted,
  gather-accepted a prev self_id f d (if x is self_id then g else gather_device a prev f g x) ds,
)

-- The device's step, if Syncthing answers for it.
abbrev pub step_of :
    Answers → Map (Map Progress) → String → String → Option (Progress × FolderPeerInfo)
step_of a prev f d = elim (a.completion_of f d) [
  | none ↦ none
  | some c ↦
      some (refresh_device a.now (has d a.connected) (lookup d (or_else [] (lookup f prev))) c)
]

abbrev pub info_of :
    Option FolderPeerInfo → Option (Progress × FolderPeerInfo) → Option FolderPeerInfo
info_of old none = old
info_of old (some s) = some s.1

abbrev pub progress_after : Option Progress → Option (Progress × FolderPeerInfo) → Option Progress
progress_after old none = old
progress_after old (some s) = some s.0

gather_device-info :
    (a : Answers) (prev : Map (Map Progress)) (f d x : String) (g : Gathered)
    → lookup d (gather_device a prev f g x).info
      ≡ (if x is d then info_of (lookup d g.info) (step_of a prev f d) else lookup d g.info)
unfolding gather_device
gather_device-info a prev f d x g = elim (Option-cases (a.completion_of f x)) [
  | inl lost ↦ rw (lost, gather_device) (ground (arith, is_iff x d, lost))
  | inr (c, found) ↦
      let s = refresh_device a.now (has x a.connected) (lookup x (or_else [] (lookup f prev))) c in
      rw (found, gather_device) (ground (arith, is_iff x d, found, lookup-insert d x s.1 g.info))
]

gather_device-progress :
    (a : Answers) (prev : Map (Map Progress)) (f d x : String) (g : Gathered)
    → lookup d (gather_device a prev f g x).progress ≡ (
        if x is d
        then progress_after (lookup d g.progress) (step_of a prev f d)
        else lookup d g.progress)
unfolding gather_device
gather_device-progress a prev f d x g = elim (Option-cases (a.completion_of f x)) [
  | inl lost ↦ rw (lost, gather_device) (ground (arith, is_iff x d, lost))
  | inr (c, found) ↦
      let s = refresh_device a.now (has x a.connected) (lookup x (or_else [] (lookup f prev))) c in
      rw (found, gather_device)
        (ground (arith, is_iff x d, found, lookup-insert d x s.0 g.progress))
]

info_of_twice :
    (old : Option FolderPeerInfo) (s : Option (Progress × FolderPeerInfo))
    → info_of (info_of old s) s ≡ info_of old s
info_of_twice old none = refl
info_of_twice old (some s) = refl

progress_after_twice :
    (old : Option Progress) (s : Option (Progress × FolderPeerInfo))
    → progress_after (progress_after old s) s ≡ progress_after old s
progress_after_twice old none = refl
progress_after_twice old (some s) = refl

gather-info :
    (a : Answers) (prev : Map (Map Progress)) (self_id f d : String) (g : Gathered)
    (ds : List String)
    → lookup d (gather a prev self_id f g ds).info ≡ (
        if is_listed self_id d ds
        then info_of (lookup d g.info) (step_of a prev f d)
        else lookup d g.info)
unfolding gather
gather-info a prev self_id f d g [] = refl
gather-info a prev self_id f d g (x ∷ ds) = ground (
  arith,
  is_iff x d,
  gather_device-info a prev f d x g,
  info_of_twice (lookup d g.info) (step_of a prev f d),
  gather-info a prev self_id f d (if x is self_id then g else gather_device a prev f g x) ds,
)

gather-progress :
    (a : Answers) (prev : Map (Map Progress)) (self_id f d : String) (g : Gathered)
    (ds : List String)
    → lookup d (gather a prev self_id f g ds).progress ≡ (
        if is_listed self_id d ds
        then progress_after (lookup d g.progress) (step_of a prev f d)
        else lookup d g.progress)
unfolding gather
gather-progress a prev self_id f d g [] = refl
gather-progress a prev self_id f d g (x ∷ ds) = ground (
  arith,
  is_iff x d,
  gather_device-progress a prev f d x g,
  progress_after_twice (lookup d g.progress) (step_of a prev f d),
  gather-progress a prev self_id f d (if x is self_id then g else gather_device a prev f g x) ds,
)

-- Of the other devices of a folder, and of no others, a refresh records whether Syncthing's remote
-- sequences have them, and, if it answers for the device, what is shown of it and its progress, as
-- the step of that device alone yields them from the progress of the refresh before.
pub gather-step :
    (a : Answers) (prev : Map (Map Progress)) (self_id f d : String) (ds : List String)
    → let g = gather a prev self_id f empty ds in
      let listed = is_listed self_id d ds in
      (lookup d g.accepted ≡ (if listed then some (has_accepted a f d) else none))
      × (lookup d g.info ≡ (if listed then info_of none (step_of a prev f d) else none))
      × (lookup d g.progress ≡ (if listed then progress_after none (step_of a prev f d) else none))
unfolding lookup
gather-step a prev self_id f d ds = (
  gather-accepted a prev self_id f d empty ds,
  gather-info a prev self_id f d empty ds,
  gather-progress a prev self_id f d empty ds,
)
