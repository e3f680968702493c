-- ===== src/Api/Unpair.antt =====
-- internal/api/folder_state.go: what `removeDeviceFromAllFolders` leaves in Syncthing.
use we_sync.Base.{
  Bool, true, false, not, ◌&&◌, List, [], ◌∷◌, map, Option, none, some, String, if◌then◌else◌, ◌is◌,
  any, ◌≡◌, refl, sym, ap, ◌∙◌, arith, is_iff, is_self, Bool-cases, Option-cases, inl, inr,
}
use we_sync.Syncthing.{Folder, FolderDevice}
use we_sync.Api.Backend.{Backend, IsDocumented, IsUp, replaced}
use we_sync.Api.App.{
  App, FolderWithDevices, device_ids_of, folder_with_devices, has_id, lists_device, without,
  find_folder, list_folders, remove_device_from_folder, remove_device_from_each,
  remove_device_from_all_folders,
}

-- The folder has the device.
abbrev pub shares : String → Folder → Bool
shares d f = lists_device d f.devices

without-shares : (d : String) (ds : List FolderDevice) → lists_device d (without d ds) ≡ false
without-shares d [] = refl
without-shares d (x ∷ ds) = ground (arith, without-shares d ds)

device_ids-shares :
    (self_id d : String) (ds : List FolderDevice)
    → (d is self_id) ≡ false
    → has_id d (device_ids_of self_id ds) ≡ lists_device d ds
device_ids-shares self_id d [] ne = refl
device_ids-shares self_id d (x ∷ ds) ne = ground (
  arith,
  ne,
  is_iff x.device_id self_id,
  is_iff x.device_id d,
  is_iff d self_id,
  device_ids-shares self_id d ds ne,
)

-- Some listed folder still to come has the ID and the device.
abbrev pub to_come : String → List FolderWithDevices → Folder → Bool
to_come d fs g = any (λ f. (f.id is g.id) && has_id d f.device_ids) fs

-- Each folder of Syncthing that has the device is still to come.
abbrev pub pending : String → List FolderWithDevices → List Folder → Bool
pending d fs gs = not (any (λ g. shares d g && not (to_come d fs g)) gs)

-- A listed folder without the device can be passed over.
pending-skip :
    (d : String) (f : FolderWithDevices) (fs : List FolderWithDevices) (gs : List Folder)
    → has_id d f.device_ids ≡ false
    → pending d (f ∷ fs) gs ≡ true
    → pending d fs gs ≡ true
pending-skip d f fs [] h p = refl
pending-skip d f fs (g ∷ gs) h p = ground (arith, h, p, pending-skip d f fs gs h)

-- Once it is replaced by one without the device, it need not come again.
pending-replaced :
    (d : String) (f : FolderWithDevices) (fs : List FolderWithDevices) (gs : List Folder)
    (r : Folder)
    → r.id ≡ f.id
    → shares d r ≡ false
    → pending d (f ∷ fs) gs ≡ true
    → pending d fs (map (replaced r) gs) ≡ true
pending-replaced d f fs [] r e h p = refl
pending-replaced d f fs (g ∷ gs) r e h p =
    ground (arith, h, p, e, is_iff g.id r.id, is_iff f.id g.id, pending-replaced d f fs gs r e h)

pending-absent :
    (d : String) (f : FolderWithDevices) (fs : List FolderWithDevices) (gs : List Folder)
    → find_folder f.id gs ≡ none
    → pending d (f ∷ fs) gs ≡ true
    → pending d fs gs ≡ true
pending-absent d f fs [] h p = refl
pending-absent d f fs (g ∷ gs) h p = elim (Bool-cases (g.id is f.id)) [
  | inl e ↦ absurd (none_some (sym h ∙ ap (λ t. if t then some g else find_folder f.id gs) e))
  | inr e ↦ ground (
    arith,
    p,
    e,
    is_iff g.id f.id,
    is_iff f.id g.id,
    pending-absent d f fs gs (sym (ap (λ t. if t then some g else find_folder f.id gs) e) ∙ h),
  )
]
  where
    none_some : {x : Folder} → Option.none ≡ some x → ⊥
    none_some q = cc

find_folder-id :
    (id : String) (gs : List Folder) (g : Folder) → find_folder id gs ≡ some g → g.id ≡ id
find_folder-id id [] g h = absurd cc
find_folder-id id (x ∷ gs) g h = ground (arith, h, is_iff x.id id, find_folder-id id gs g)

pending-grow :
    (d : String) (f : FolderWithDevices) (fs : List FolderWithDevices) (gs : List Folder)
    → pending d fs gs ≡ true
    → pending d (f ∷ fs) gs ≡ true
pending-grow d f fs [] p = refl
pending-grow d f fs (g ∷ gs) p = ground (arith, p, pending-grow d f fs gs)

-- At the start every folder is still to come.
pending-start :
    (self_id d : String) (fs : List Folder)
    → (d is self_id) ≡ false
    → pending d (map (folder_with_devices self_id) fs) fs ≡ true
pending-start self_id d [] ne = refl
pending-start self_id d (f ∷ fs) ne = ground (
  arith,
  is_self f.id,
  device_ids-shares self_id d f.devices ne,
  pending-grow d (folder_with_devices self_id f) (map (folder_with_devices self_id) fs) fs
      (pending-start self_id d fs ne),
)

pending-end : (d : String) (gs : List Folder) → pending d [] gs ≡ true → any (shares d) gs ≡ false
pending-end d [] p = refl
pending-end d (g ∷ gs) p = ground (arith, p, pending-end d gs)

module _ (b : Backend) (doc : IsDocumented b) (up : IsUp b) where
  -- Syncthing lists folders that are as said.
  abbrev Lists : b.St → (List Folder → Bool) → Type 0
  Lists s ok = (gs : List Folder) × ((b.list_folders s ≡ some gs) × (ok gs ≡ true))

  remove-pending :
      (d : String) (f : FolderWithDevices) (fs : List FolderWithDevices) (a : App b)
      (gs : List Folder)
      → b.list_folders a.st ≡ some gs
      → pending d (f ∷ fs) gs ≡ true
      → Lists (remove_device_from_folder b f.id d a).st (pending d fs)
  unfolding remove_device_from_folder
  remove-pending d f fs a gs l p = elim (Option-cases (find_folder f.id gs)) [
    | inl e ↦ (gs, (rw (l, remove_device_from_folder, e) l, pending-absent d f fs gs e p))
    | inr (g, e) ↦
        let r : Folder = record g { devices = without d g.devices } in
        (
          map (replaced r) gs,
          (
            rw (l, remove_device_from_folder, e)
                (doc.folder_updated r a.st gs l (up.folder_up r a.st)),
            pending-replaced d f fs gs r (find_folder-id f.id gs g e) (without-shares d g.devices)
                p,
          ),
        )
  ]

  each-pending :
      (d : String) (fs : List FolderWithDevices) (a : App b) (gs : List Folder)
      → b.list_folders a.st ≡ some gs
      → pending d fs gs ≡ true
      → Lists (remove_device_from_each b d fs a).st (λ hs. not (any (shares d) hs))
  unfolding remove_device_from_each
  each-pending d [] a gs l p = (gs, (l, ap not (pending-end d gs p)))
  each-pending d (f ∷ fs) a gs l p = elim (Bool-cases (has_id d f.device_ids)) [
    | inl e ↦
        let (hs, (m, q)) = remove-pending d f fs a gs l p in
        rw (e, remove_device_from_each)
          (each-pending d fs (remove_device_from_folder b f.id d a) hs m q)
    | inr e ↦
        rw (e, remove_device_from_each) (each-pending d fs a gs l (pending-skip d f fs gs e p))
  ]

-- If Syncthing lists its folders and the updates of folders meet no error, then after
-- `removeDeviceFromAllFolders` of another device than this node, Syncthing lists folders of which
-- none has the device, as long as an update replaces the folder with its ID.
pub remove_from_all_lem :
    (b : Backend)
    → IsDocumented b
    → IsUp b
    → (self_id d : String) (a : App b) (fs : List Folder) → (d is self_id) ≡ false
    → b.list_folders a.st ≡ some fs
    → (gs : List Folder) × ((b.list_folders (remove_device_from_all_folders b self_id d a).st
          ≡ some gs)
        × (any (shares d) gs ≡ false))
unfolding remove_device_from_all_folders list_folders
remove_from_all_lem b doc up self_id d a fs ne l =
    let (gs, (m, q)) =
      each-pending b doc up d (map (folder_with_devices self_id) fs) a fs l
        (pending-start self_id d fs ne) in
    (gs, (rw (l, remove_device_from_all_folders, list_folders) m, ground (arith, q)))
