-- ===== src/Api/FolderCalls.antt =====
-- internal/api/folders.go: the requests on folders; internal/api/handlers.go: the calls of peers on
-- them. `pend` is the cache of pending offers.
use we_sync.Base.{
  Bool, true, false, not, ◌&&◌, ◌||◌, List, [], ◌∷◌, ◌++◌, Option, none, some, String,
  if◌then◌else◌, ◌is◌, any, or_else,
}
use we_sync.Node.State.{State, is_trusted, set_wire_accepted, reset_accepted}
use we_sync.Syncthing.{Folder, FolderDevice}
use we_sync.Syncthing.Folders.{PendingFolder}
use we_sync.Api.Backend.{Backend}
use we_sync.Api.App.{
  App, folder_accept, lists_device, find_folder, new_member, schedule_push, notify_each,
  add_device_to_folder,
}
use we_sync.Api.Pairing.{Status, success, no_content, bad_request, forbidden, conflict, bad_gateway}

pub record ShareRequest : Type 0 where
  pub device_id : String
  pub path : String
  pub label : String
  pub direction : String

pub record AcceptRequest : Type 0 where
  pub folder_id : String
  pub device_id : String
  pub path : String
  pub direction : String

abbrev pub is_direction : String → Bool
is_direction d = (d is "sendonly") || (d is "receiveonly") || (d is "sendreceive")

-- The other devices of the folder, in `FolderShare`.
abbrev pub others : String → String → List FolderDevice → List String
others self_id device [] = []
others self_id device (d ∷ ds) =
    let rest = others self_id device ds in
    if (d.device_id is self_id) || (d.device_id is device) then rest else d.device_id ∷ rest

-- The first folder with the path.
unfoldable pub find_path : (String → String) → String → List Folder → Option Folder
find_path norm path [] = none
find_path norm path (f ∷ fs) =
    let rest = find_path norm path fs in if norm f.path is norm path then some f else rest

-- `allOfferers`, and the label of the first offer.
abbrev pub co_offerers : String → String → List PendingFolder → List String
co_offerers folder device [] = []
co_offerers folder device (p ∷ ps) =
    let rest = co_offerers folder device ps in
    if (p.folder_id is folder) && not (p.device_id is device) then p.device_id ∷ rest else rest

abbrev pub offered_label : String → List PendingFolder → String
offered_label folder [] = folder
offered_label folder (p ∷ ps) =
    let rest = offered_label folder ps in if p.folder_id is folder then p.label else rest

module _ (b : Backend) (self_id : String) (norm : String → String) where
  abbrev pub reconnect_each : List String → b.St → b.St
  reconnect_each [] s = s
  reconnect_each (id ∷ ids) s = reconnect_each ids (b.reconnect id s).0

  unfoldable pub share_existing : Folder → String → String → String → App b → App b × Status
  unfolding schedule_push
  share_existing f device label direction a =
      let fresh = not (device is "") && not (lists_device device f.devices) in
      let g : Folder = record f {
        label = label;
        type = direction;
        devices = if fresh then f.devices ++ (new_member device ∷ []) else f.devices;
      } in
      let s = if fresh then reset_accepted a.state f.id device else a.state in
      let r = b.update_folder g a.st in
      if r.1
      then (
        schedule_push b (record a {
          state = s;
          st = if fresh then reconnect_each (device ∷ others self_id device g.devices) r.0 else r.0;
        }),
        success,
      )
      else (record a { state = s; st = r.0 }, bad_gateway)

  unfoldable pub share_new : String → String → String → String → String → App b → App b × Status
  unfolding schedule_push
  share_new new_id path device label direction a =
      let f : Folder = record {
        id = new_id;
        label = label;
        path = path;
        type = direction;
        paused = false;
        devices = new_member self_id ∷ (if device is "" then [] else new_member device ∷ []);
      } in
      let r = b.add_folder f a.st in
      if r.1
      then (
        schedule_push b (record a {
          st = if device is "" then r.0 else reconnect_each (device ∷ []) r.0;
          folders_changed = true;
        }),
        success,
      )
      else (record a { st = r.0 }, bad_gateway)

  -- A request without a body that decodes is none; `new_id` is the answer of `newFolderID`, `last`
  -- the last component of a path.
  unfoldable pub folder_share :
      String → (String → String) → Option ShareRequest → App b → App b × Status
  unfolding share_existing share_new
  folder_share new_id last none a = (a, bad_request)
  folder_share new_id last (some r) a =
      let label = if r.label is "" then last r.path else r.label in
      let direction = if r.direction is "" then "sendonly" else r.direction in
      if r.path is ""
      then (a, bad_request)
      else (if not (r.device_id is "") && not (is_trusted a.state r.device_id)
          then (a, forbidden)
          else (elim (b.list_folders a.st) [
            | none ↦ (a, bad_gateway)
            | some fs ↦ elim (find_path norm r.path fs) [
              | some f ↦ share_existing f r.device_id label direction a
              | none ↦ share_new new_id r.path r.device_id label direction a
            ]
          ]))

  unfoldable pub add_each : String → List String → App b → App b
  unfolding add_device_to_folder
  add_each folder [] a = a
  add_each folder (d ∷ ds) a = add_each folder ds (add_device_to_folder b folder d a)

  unfoldable pub wire_accept_each : String → List String → State → State
  wire_accept_each folder [] s = s
  wire_accept_each folder (d ∷ ds) s =
      wire_accept_each folder ds (set_wire_accepted s folder d true)

  abbrev pub members : List String → List FolderDevice
  members [] = []
  members (d ∷ ds) = new_member d ∷ members ds

  -- The end of `FolderAccept`, once the folder is configured.
  unfoldable pub accepted_from : String → List String → App b → App b × Status
  unfolding wire_accept_each notify_each schedule_push
  accepted_from folder offerers a =
      let told : App b = notify_each b offerers (folder_accept folder) (record a {
        st = reconnect_each offerers a.st;
        state = wire_accept_each folder offerers a.state;
      }) in
      (record (schedule_push b told) { greets_all = true }, no_content)

  -- `assertPathNotInUse`, which takes a list that fails for an empty one.
  unfoldable pub path_in_use : String → App b → Bool
  unfolding find_path
  path_in_use path a = any (λ f. norm f.path is norm path) (or_else [] (b.list_folders a.st))

  -- The folder that `FolderAccept` adds.
  abbrev pub new_folder : List PendingFolder → AcceptRequest → List String → Folder
  new_folder pend r offerers = record {
    id = r.folder_id;
    label = offered_label r.folder_id pend;
    path = r.path;
    type = if is_direction r.direction then r.direction else "sendreceive";
    paused = false;
    devices = new_member self_id ∷ members offerers;
  }

  unfoldable pub accept_new :
      List PendingFolder → AcceptRequest → List String → App b → App b × Status
  unfolding accepted_from path_in_use
  accept_new pend r offerers a =
      let added = b.add_folder (new_folder pend r offerers) a.st in
      if r.path is ""
      then (a, bad_request)
      else (if path_in_use r.path a
          then (a, conflict)
          else (if added.1
              then accepted_from r.folder_id offerers
                  (record a { st = added.0; folders_changed = true })
              else (record a { st = added.0 }, bad_gateway)))

  unfoldable pub folder_accept_call :
      List PendingFolder → Option AcceptRequest → App b → App b × Status
  unfolding accept_new add_each accepted_from
  folder_accept_call pend none a = (a, bad_request)
  folder_accept_call pend (some r) a =
      let offerers = r.device_id ∷ co_offerers r.folder_id r.device_id pend in
      if r.folder_id is "" then (a, bad_request) else (elim (b.list_folders a.st) [
        | none ↦ (a, bad_gateway)
        | some fs ↦ elim (find_folder r.folder_id fs) [
          | some f ↦ accepted_from r.folder_id offerers (add_each r.folder_id offerers a)
          | none ↦ accept_new pend r offerers a
        ]
      ])
