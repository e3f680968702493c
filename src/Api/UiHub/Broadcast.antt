-- ===== src/Api/UiHub/Broadcast.antt =====
-- `Broadcast`, `writePump` and the snapshot of `ServeWS` of internal/api/hub.go: the queue of each window.
use mathlib.Core.List.{append_assoc, append-nil}
use we_sync.Base.{
  ℕ, ◌≤◌, Bool, true, false, ◌||◌, List, [], ◌∷◌, ◌++◌, map, String, if◌then◌else◌, ltb, ◌==◌,
  length, length-append, All, ◌≡◌, refl, sym, ap, ◌∙◌, arith, Bool-cases, inl, inr, ltb→lt,
}

abbrev pub ui_send_buffer : ℕ
ui_send_buffer = 16

-- What a window is sent: the state as it was when it connected, and what is broadcast.
pub data Item : Type 0 where
  initial update : String → Item

pub record Client : Type 0 where
  pub id : ℕ
  pub queue : List Item  -- `send`
  pub written : List Item  -- what the socket has been given, in order
  pub is_slow : Bool  -- among the `slow` of a `Broadcast` that has released the lock
  pub is_closed : Bool  -- `conn` is closed
  pub has_ended : Bool  -- `writePump` has returned

unfoldable pub new_client : ℕ → Client
new_client n = record {
  id = n;
  queue = [];
  written = [];
  is_slow = false;
  is_closed = false;
  has_ended = false;
}

-- The `select` of `Broadcast`, under the lock: a client whose queue is full is slow.
unfoldable pub offer : String → Client → Client
offer msg c =
    if ltb (length c.queue) ui_send_buffer
    then record c { queue = c.queue ++ (update msg ∷ []) }
    else record c { is_slow = true }

unfoldable pub broadcast : String → List Client → List Client
unfolding offer
broadcast msg cs = map (offer msg) cs

-- `Broadcast` closes a slow client, once it has released the lock.
unfoldable pub close_slow : Client → Client
close_slow c = if c.is_slow then record c { is_slow = false; is_closed = true } else c

-- `ServeWS` queues the snapshot; it waits while there is no room.
unfoldable pub queue_snapshot : String → Client → Client
queue_snapshot snap c =
    if ltb (length c.queue) ui_send_buffer
    then record c { queue = c.queue ++ (initial snap ∷ []) }
    else c

-- One round of `writePump`; a write to a closed socket is an error, which ends it.
unfoldable pub pump : Client → Client
pump c = elim c.queue [
  | [] ↦ c
  | msg ∷ rest ↦
      if c.has_ended
      then c
      else if c.is_closed
      then record c { queue = rest; has_ended = true }
      else record c { queue = rest; written = c.written ++ (msg ∷ []) }
]

-- The window goes away, or a write to its socket meets an error: the socket is closed.
unfoldable pub drop_client : Client → Client
drop_client c = record c { is_closed = true }

-- What is done for the client with an ID.
unfoldable pub for_one : (Client → Client) → ℕ → List Client → List Client
for_one act n [] = []
for_one act n (c ∷ cs) = (if c.id == n then act c else c) ∷ for_one act n cs

pub data Move : Type 0 where
  broadcasts : String → Move
  snapshots : ℕ → String → Move
  closes_slow pumps drops : ℕ → Move

unfoldable pub move : List Client → Move → List Client
unfolding broadcast close_slow queue_snapshot pump drop_client for_one
move cs (broadcasts d) = broadcast d cs
move cs (snapshots n snap) = for_one (queue_snapshot snap) n cs
move cs (closes_slow n) = for_one close_slow n cs
move cs (pumps n) = for_one pump n cs
move cs (drops n) = for_one drop_client n cs

unfoldable pub moves : List Client → List Move → List Client
unfolding move
moves cs [] = cs
moves cs (m ∷ ms) = moves (move cs m) ms

abbrev pub messages : List Move → List String
messages [] = []
messages (broadcasts d ∷ ms) = d ∷ messages ms
messages (m ∷ ms) = messages ms

abbrev pub updates : List Item → List String
updates [] = []
updates (update d ∷ rest) = d ∷ updates rest
updates (initial s ∷ rest) = updates rest

-- No more than 16 messages wait; and a window that is neither slow nor closed has been written, or has
-- waiting, all messages, in their order.
abbrev pub IsServed : List String → Client → Type 0
IsServed all c =
    (length c.queue ≤ 16)
    × ((c.is_slow || c.is_closed) ≡ false → updates (c.written ++ c.queue) ≡ all)

updates-append : (xs ys : List Item) → updates (xs ++ ys) ≡ updates xs ++ updates ys
updates-append [] ys = refl
updates-append (update d ∷ xs) ys = ap (λ l. d ∷ l) (updates-append xs ys)
updates-append (initial s ∷ xs) ys = updates-append xs ys

-- One more item at the end of the queue.
queued :
    (w q : List Item) (i : Item)
    → updates (w ++ (q ++ (i ∷ []))) ≡ updates (w ++ q) ++ updates (i ∷ [])
queued w q i = ap updates (sym (append_assoc w q (i ∷ []))) ∙ updates-append (w ++ q) (i ∷ [])

offer-IsServed :
    (all : List String) (d : String) (c : Client)
    → IsServed all c
    → IsServed (all ++ (d ∷ [])) (offer d c)
unfolding offer
offer-IsServed all d c (b, v) = elim (Bool-cases (ltb (length c.queue) 16)) [
  | inl e ↦
      rw (e, offer)
        (
          omega (arith, length-append c.queue (update d ∷ []), ltb→lt (length c.queue) 16 e),
          λ k. queued c.written c.queue (update d) ∙ ap (λ l. l ++ (d ∷ [])) (v k),
        )
  | inr e ↦ rw (e, offer) (b, λ k. ground (arith, k))
]

queue_snapshot-IsServed :
    (all : List String) (snap : String) (c : Client)
    → IsServed all c
    → IsServed all (queue_snapshot snap c)
unfolding queue_snapshot
queue_snapshot-IsServed all snap c (b, v) = elim (Bool-cases (ltb (length c.queue) 16)) [
  | inl e ↦
      rw (e, queue_snapshot)
        (
          omega (arith, length-append c.queue (initial snap ∷ []), ltb→lt (length c.queue) 16 e),
          λ k.
              queued c.written c.queue (initial snap)
              ∙ append-nil (updates (c.written ++ c.queue))
              ∙ v k,
        )
  | inr e ↦ rw (e, queue_snapshot) (b, v)
]

close_slow-IsServed :
    (all : List String) (c : Client) → IsServed all c → IsServed all (close_slow c)
unfolding close_slow
close_slow-IsServed all c (b, v) = elim (Bool-cases c.is_slow) [
  | inl e ↦ rw (e, close_slow) (b, λ k. ground (arith, k))
  | inr e ↦ rw (e, close_slow) (b, λ k. v (ground (arith, e, k)))
]

broadcast-IsServed :
    (all : List String) (d : String) (cs : List Client)
    → All (IsServed all) cs
    → All (IsServed (all ++ (d ∷ []))) (broadcast d cs)
unfolding broadcast
broadcast-IsServed all d [] v = tt
broadcast-IsServed all d (c ∷ cs) (w, v) = (offer-IsServed all d c w, broadcast-IsServed all d cs v)

pump-IsServed : (all : List String) (c : Client) → IsServed all c → IsServed all (pump c)
pump-IsServed all c v = by_queue c.queue v
  where
    by_queue :
        (q : List Item)
        → IsServed all (record c { queue = q })
        → IsServed all (pump (record c { queue = q }))
    by_queue [] v = unfold pump in v
    by_queue (d ∷ rest) (b, v) =
        unfold pump in
        elim (Bool-cases c.has_ended) [
          | inl e ↦ rw e (b, v)
          | inr e ↦ elim (Bool-cases c.is_closed) [
            | inl f ↦ rw (e, f) (omega (arith, b), λ k. ground (arith, k))
            | inr f ↦
                rw (e, f)
                  (
                    omega (arith, b),
                    λ k.
                        ap updates (append_assoc c.written (d ∷ []) rest)
                        ∙ v (ground (arith, f, k)),
                  )
          ]
        ]

drop_client-IsServed :
    (all : List String) (c : Client) → IsServed all c → IsServed all (drop_client c)
unfolding drop_client
drop_client-IsServed all c (b, v) = (b, λ k. ground (arith, k))

for_one-IsServed :
    (all : List String) (act : Client → Client)
    → ((c : Client) → IsServed all c → IsServed all (act c))
    → (n : ℕ) (cs : List Client) → All (IsServed all) cs
    → All (IsServed all) (for_one act n cs)
unfolding for_one
for_one-IsServed all act keeps n [] v = tt
for_one-IsServed all act keeps n (c ∷ cs) (w, v) =
    (chosen (c.id == n), for_one-IsServed all act keeps n cs v)
  where
    chosen : (b : Bool) → IsServed all (if b then act c else c)
    chosen true = keeps c w
    chosen false = w

moves-IsServed :
    (all : List String) (cs : List Client) (ms : List Move)
    → All (IsServed all) cs
    → All (IsServed (all ++ messages ms)) (moves cs ms)
unfolding moves move
moves-IsServed all cs [] v = rw (append-nil all) v
moves-IsServed all cs (broadcasts d ∷ ms) v =
    rw (sym (append_assoc all (d ∷ []) (messages ms)))
      (moves-IsServed (all ++ (d ∷ [])) (broadcast d cs) ms (broadcast-IsServed all d cs v))
moves-IsServed all cs (snapshots n snap ∷ ms) v =
    moves-IsServed all (for_one (queue_snapshot snap) n cs) ms
      (for_one-IsServed all (queue_snapshot snap) (queue_snapshot-IsServed all snap) n cs v)
moves-IsServed all cs (closes_slow n ∷ ms) v =
    moves-IsServed all (for_one close_slow n cs) ms
      (for_one-IsServed all close_slow (close_slow-IsServed all) n cs v)
moves-IsServed all cs (pumps n ∷ ms) v =
    moves-IsServed all (for_one pump n cs) ms (for_one-IsServed all pump (pump-IsServed all) n cs v)
moves-IsServed all cs (drops n ∷ ms) v =
    moves-IsServed all (for_one drop_client n cs) ms
      (for_one-IsServed all drop_client (drop_client-IsServed all) n cs v)

new-IsServed : (ns : List ℕ) → All (IsServed []) (map new_client ns)
unfolding new_client
new-IsServed [] = tt
new-IsServed (n ∷ ns) = ((omega arith, λ k. refl), new-IsServed ns)

-- However slow a window is, no more than 16 messages wait for it; and each window that is registered,
-- that no `Broadcast` since has found slow and that has not been closed, has been written all the
-- messages that were broadcast since, in their order and beside its snapshot, up to those that still
-- wait for it.
pub moves-served :
    (ns : List ℕ) (ms : List Move)
    → All
        (λ c.
          (length c.queue ≤ 16)
          × ((c.is_slow || c.is_closed) ≡ false → updates (c.written ++ c.queue) ≡ messages ms))
        (moves (map new_client ns) ms)
moves-served ns ms = moves-IsServed [] (map new_client ns) ms (new-IsServed ns)
