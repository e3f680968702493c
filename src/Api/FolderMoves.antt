-- ===== src/Api/FolderMoves.antt =====
-- internal/api/folders.go: the requests that change or leave a folder; internal/api/handlers.go: the
-- calls of peers on folders.
use we_sync.Base.{
  Bool, true, not, ◌||◌, List, [], ◌∷◌, Option, none, some, String, if◌then◌else◌, ◌is◌,
}
use we_sync.Node.State.{is_trusted, set_wire_accepted}
use we_sync.Syncthing.{Folder}
use we_sync.Api.Backend.{Backend}
use we_sync.Api.App.{
  App, folder_decline, folder_remove, folder_participants, find_folder, schedule_push, notify,
  notify_each, list_folders, is_folder_participant, remove_device_from_folder,
}
use we_sync.Api.Pairing.{
  Status, no_content, bad_request, not_found, bad_gateway, server_error, with_state,
}
use we_sync.Api.FolderCalls.{is_direction}

-- The participants but one.
abbrev pub others_than : String → List String → List String
others_than id [] = []
others_than id (d ∷ ds) = let rest = others_than id ds in if d is id then rest else d ∷ rest

module _ (b : Backend) (self_id : String) where
  unfoldable pub folder_decline_call : Option (String × String) → App b → App b × Status
  unfolding notify schedule_push
  folder_decline_call none a = (a, bad_request)
  folder_decline_call (some (folder, device)) a =
      if (folder is "") || (device is "") then (a, bad_request) else (
        schedule_push b (
            notify b device (folder_decline folder)
              (record a { st = (b.dismiss_pending_folder folder device a.st).0 })),
        no_content,
      )

  unfoldable pub folder_remove_device : String → String → App b → App b × Status
  unfolding list_folders remove_device_from_folder notify notify_each schedule_push
      folder_participants
  folder_remove_device folder device a =
      let participants = folder_participants (list_folders b self_id a) folder in
      let removed : App b = schedule_push b (remove_device_from_folder b folder device a) in
      if (folder is "") || (device is "") then (a, bad_request) else (
        notify_each b (others_than device participants) (folder_remove folder device)
            (notify b device (folder_remove folder "") removed),
        no_content,
      )

  unfoldable pub folder_remove_call : String → App b → App b × Status
  unfolding list_folders notify_each schedule_push folder_participants
  folder_remove_call folder a =
      let told : App b =
        notify_each b (folder_participants (list_folders b self_id a) folder)
          (folder_remove folder self_id) a in
      let r = b.remove_folder folder told.st in
      if folder is ""
      then (a, bad_request)
      else (if r.1
          then (schedule_push b (record told { st = r.0 }), no_content)
          else (record told { st = r.0 }, server_error))

  -- The end of `FolderUpdateLabel` and of `FolderUpdateDirection`.
  unfoldable pub change_folder : String → (Folder → Folder) → App b → App b × Status
  unfolding schedule_push
  change_folder folder change a = elim (b.list_folders a.st) [
    | none ↦ (a, bad_gateway)
    | some fs ↦ elim (find_folder folder fs) [
      | none ↦ (a, not_found)
      | some f ↦
          let r = b.update_folder (change f) a.st in
          if r.1
          then (schedule_push b (record a { st = r.0 }), no_content)
          else (record a { st = r.0 }, bad_gateway)
    ]
  ]

  unfoldable pub folder_update_label : Option (String × String) → App b → App b × Status
  unfolding change_folder
  folder_update_label none a = (a, bad_request)
  folder_update_label (some (folder, label)) a =
      if (folder is "") || (label is "")
      then (a, bad_request)
      else change_folder folder (λ f. record f { label = label }) a

  unfoldable pub folder_update_direction : Option (String × String) → App b → App b × Status
  unfolding change_folder
  folder_update_direction none a = (a, bad_request)
  folder_update_direction (some (folder, direction)) a =
      if (folder is "") || (direction is "")
      then (a, bad_request)
      else (if is_direction direction
          then change_folder folder (λ f. record f { type = direction }) a
          else (a, bad_request))

  -- `OnFolderRemove`, `OnFolderAccept` and `OnFolderDecline`.
  unfoldable pub kicked : String → String → App b → App b
  unfolding remove_device_from_folder list_folders folder_participants
  kicked from folder a =
      let left : App b = remove_device_from_folder b folder from a in
      elim (folder_participants (list_folders b self_id left) folder) [
        | [] ↦ record left { st = (b.remove_folder folder left.st).0 }
        | d ∷ ds ↦ left
      ]

  unfoldable pub may_change : String → String → App b → Bool
  unfolding is_folder_participant
  may_change from folder a =
      is_trusted a.state from || is_folder_participant b self_id a from folder

  unfoldable pub on_folder_remove : String → String → String → App b → App b
  unfolding may_change kicked remove_device_from_folder schedule_push
  on_folder_remove from folder target a =
      if not (may_change from folder a)
      then a
      else schedule_push b (
          if target is ""
          then kicked from folder a
          else remove_device_from_folder b folder target a)

  unfoldable pub on_folder_accept : String → String → App b → App b
  unfolding schedule_push
  on_folder_accept from folder a =
      if (from is "") || (from is self_id)
      then a
      else schedule_push b (with_state a (set_wire_accepted a.state folder from true))

  unfoldable pub on_folder_decline : String → String → App b → App b
  unfolding may_change remove_device_from_folder schedule_push
  on_folder_decline from folder a =
      if not (may_change from folder a)
      then a
      else schedule_push b (remove_device_from_folder b folder from a)
