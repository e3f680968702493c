-- ===== src/Api/Guards.antt =====
-- internal/api: a request that is refused, and what a peer may do.
use we_sync.Base.{
  Bool, true, false, some, String, if◌then◌else◌, ◌is◌, ◌≡◌, refl, ap, ◌∙◌, Bool-cases, inl, inr,
  has, has-insert, is_self,
}
use we_sync.Node.State.{is_trusted, trust}
use we_sync.Api.Backend.{Backend}
use we_sync.Api.App.{App, trust_device, schedule_push}
use we_sync.Api.Pairing.{forbidden, on_accepted}
use we_sync.Api.FolderCalls.{ShareRequest, folder_share}

-- `FolderShare` with a device that is not trusted, and with a path, answers that it is forbidden and
-- changes nothing: not Syncthing, not the node's state, and no message is sent.
pub folder_share-forbidden :
    (b : Backend) (self_id new_id : String) (norm last : String → String) (r : ShareRequest)
    (a : App b)
    → (r.path is "") ≡ false
    → (r.device_id is "") ≡ false
    → is_trusted a.state r.device_id ≡ false
    → folder_share b self_id norm new_id last (some r) a ≡ (a, forbidden)
unfolding folder_share
folder_share-forbidden b self_id new_id norm last r a p d t = rw (p, d, t, folder_share) refl

-- A peer that says that it accepts a pairing is trusted from then on, whoever it is and whether or not
-- this node ever asked it.
pub on_accepted-trusted :
    (b : Backend) (self_id : String) (introducer : Bool) (from : String) (a : App b)
    → is_trusted (on_accepted b self_id introducer from a).state from ≡ true
unfolding on_accepted schedule_push trust_device trust is_trusted
on_accepted-trusted b self_id introducer from a = elim (Bool-cases (is_trusted a.state from)) [
  | inl e ↦ rw (e, on_accepted) e
  | inr e ↦
      rw (e, on_accepted)
        (has-insert from from true a.state.trusted_ids
          ∙ ap (λ t. if t then true else has from a.state.trusted_ids) (is_self from))
]
