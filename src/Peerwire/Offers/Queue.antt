-- ===== src/Peerwire/Offers/Queue.antt =====
-- What the queue of offers means: for each device and folder the offer that is to be delivered, if
-- there is one.
use we_sync.Base.{
  ◌≡◌, refl, ap, ◌∙◌, Bool, false, ◌&&◌, List, [], ◌∷◌, Option, none, some, String, any,
  lookup-insert, lookup-delete, is_some, if◌then◌else◌, ◌is◌, is_iff, arith, ◌⊎◌, inl, inr,
}
use we_sync.Peerwire.Message.{Message}
use we_sync.Peerwire.Offers.{
  Pending, Self, offers, queue_in, queue_offer, drain_offers, folder_ids_of, pending_folder_ids,
  kept_of, cancel_offer, hello_message, send_hello,
}

-- The first message of a folder.
unfoldable pub find : String → List Message → Option Message
find fid [] = none
find fid (m ∷ ms) = if m.folder_id is fid then some m else find fid ms

pub data Call : Type 0 where
  queues : String → Message → Call
  cancels : String → String → Call
  drains : String → Call

unfoldable pub apply : Pending → Call → Pending
apply p (queues dev msg) = queue_offer p dev msg
apply p (cancels dev fid) = cancel_offer p dev fid
apply p (drains dev) = (drain_offers p dev).0

unfoldable pub run : Pending → List Call → Pending
unfolding apply
run p [] = p
run p (c ∷ cs) = run (apply p c) cs

-- The offer of the folder `fid` to the device `dev`, through one call and through many.
unfoldable pub next : String → String → Option Message → Call → Option Message
next dev fid o (queues d m) = if (d is dev) && (m.folder_id is fid) then some m else o
next dev fid o (cancels d f) = if (d is dev) && (f is fid) then none else o
next dev fid o (drains d) = if d is dev then none else o

unfoldable pub nexts : String → String → Option Message → List Call → Option Message
nexts dev fid o [] = o
nexts dev fid o (c ∷ cs) = nexts dev fid (next dev fid o c) cs

find-queue_in :
    (fid : String) (msg : Message) (ms : List Message)
    → find fid (queue_in msg ms) ≡ (if msg.folder_id is fid then some msg else find fid ms)
unfolding find queue_in
find-queue_in fid msg [] = refl
find-queue_in fid msg (m ∷ ms) = ground (
  arith,
  is_iff m.folder_id msg.folder_id,
  is_iff m.folder_id fid,
  is_iff msg.folder_id fid,
  find-queue_in fid msg ms,
)

find-kept_of :
    (fid f : String) (ms : List Message)
    → find fid (kept_of f ms) ≡ (if f is fid then none else find fid ms)
unfolding find kept_of
find-kept_of fid f [] = ground arith
find-kept_of fid f (m ∷ ms) =
    ground
      (arith, is_iff m.folder_id f, is_iff m.folder_id fid, is_iff f fid, find-kept_of fid f ms)

cancel-offers :
    (p : Pending) (dev d f : String)
    → offers (cancel_offer p d f) dev ≡ (if d is dev then kept_of f (offers p d) else offers p dev)
unfolding cancel_offer
cancel-offers p dev d f = by_kept (kept_of f (offers p d)) refl
  where
    by_kept :
        (ms : List Message)
        → kept_of f (offers p d) ≡ ms
        → offers (cancel_offer p d f) dev
          ≡ (if d is dev then kept_of f (offers p d) else offers p dev)
    by_kept [] h = unfold cancel_offer in rw h (ground (arith, lookup-delete dev d p))
    by_kept (m ∷ ms) h =
        unfold cancel_offer in rw h (ground (arith, lookup-insert dev d (m ∷ ms) p))

apply-find :
    (p : Pending) (c : Call) (dev fid : String)
    → find fid (offers (apply p c) dev) ≡ next dev fid (find fid (offers p dev)) c
unfolding apply next
apply-find p (queues d m) dev fid =
    unfold queue_offer in
    ground (
      arith,
      is_iff d dev,
      lookup-insert dev d (queue_in m (offers p d)) p,
      find-queue_in fid m (offers p dev),
    )
apply-find p (cancels d f) dev fid =
    ground (arith, is_iff d dev, cancel-offers p dev d f, find-kept_of fid f (offers p dev))
apply-find p (drains d) dev fid = unfold drain_offers find in ground (arith, lookup-delete dev d p)

-- Whatever is queued, cancelled and drained, the offer of a folder that waits for a device is the
-- last one that was queued for it, or that waited at the start, if it has been neither cancelled nor
-- drained since.
pub run-find :
    (p : Pending) (cs : List Call) (dev fid : String)
    → find fid (offers (run p cs) dev) ≡ nexts dev fid (find fid (offers p dev)) cs
unfolding run nexts
run-find p [] dev fid = refl
run-find p (c ∷ cs) dev fid =
    run-find (apply p c) cs dev fid ∙ ap (λ o. nexts dev fid o cs) (apply-find p c dev fid)

list_cases : (xs : List String) → (xs ≡ []) ⊎ ((y : String) × (ys : List String) × (xs ≡ y ∷ ys))
list_cases [] = inl refl
list_cases (y ∷ ys) = inr (y, ys, refl)

any-folder_ids_of :
    (fid : String) (ms : List Message)
    → (fid is "") ≡ false
    → any (λ x. x is fid) (folder_ids_of ms) ≡ is_some (find fid ms)
unfolding folder_ids_of find
any-folder_ids_of fid [] h = refl
any-folder_ids_of fid (m ∷ ms) h =
    ground (arith, h, is_iff m.folder_id "", is_iff m.folder_id fid, any-folder_ids_of fid ms h)

-- After a Hello, the first message of each folder that has been written is the offer of it that
-- waited for the peer, the pending folders that it names are exactly those of such offers, and no
-- offer is left for the peer, while the offers for others stay.
pub send_hello-find :
    (s : Self) (p : Pending) (key : String) (trusted : Option Bool) (dev fid : String)
    → (fid is "") ≡ false
    → (find fid (send_hello s p key trusted).1 ≡ find fid (offers p key))
      × (any (λ x. x is fid) (pending_folder_ids p key) ≡ is_some (find fid (offers p key)))
      × (find fid (offers (send_hello s p key trusted).0 dev)
          ≡ (if key is dev then none else find fid (offers p dev)))
unfolding send_hello find hello_message pending_folder_ids drain_offers
send_hello-find s p key trusted dev fid h = (
  elim (list_cases (folder_ids_of (offers p key))) [
    | inl empty ↦ rw empty (ground (arith, h, is_iff "" fid))
    | inr (id, ids, found) ↦ rw found (ground (arith, h, is_iff "" fid))
  ],
  any-folder_ids_of fid (offers p key) h,
  ground (arith, lookup-delete dev key p),
)
