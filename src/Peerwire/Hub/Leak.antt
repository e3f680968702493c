-- ===== src/Peerwire/Hub/Leak.antt =====
-- The invariant of the hub: each connection that was started is closed or within the reach of the hub;
-- and the steps that keep it.
use we_sync.Base.{
  ℕ, ◌<◌, ◌≡◌, inl, inr, Bool, true, false, ◌||◌, List, [], ◌∷◌, Option, none, some, String, Map,
  lookup, insert, delete, lookup-delete, IsUnique, insert-IsUnique, delete-IsUnique, if◌then◌else◌,
  is_iff, ◌==◌, any, arith, Option-cases,
}
use we_sync.Peerwire.Hub.{
  Conn, Hub, new_conn, start, close, nudge, is_to, connect, endpoint_of, rekey, adoptable_of,
}

-- The connection `h` stands under some key.
unfoldable pub holds : ℕ → Map Conn → Bool
holds h [] = false
holds h ((k, c) ∷ m) = (c.handle == h) || holds h m

abbrev pub is_closed : ℕ → List ℕ → Bool
is_closed h hs = any (λ x. x == h) hs

-- The connection `h` is closed, or the hub has it.
abbrev pub is_reached : ℕ → Hub → Bool
is_reached h hub = is_closed h hub.closed || holds h hub.conns

-- Each key stands once, and each connection that was ever started is closed or in the hub.
pub record IsTidy (hub : Hub) : Type 0 where
  pub unique : IsUnique hub.conns
  pub reached : (h : ℕ) → h < hub.next → is_reached h hub ≡ true

abbrev pub is_at : ℕ → Option Conn → Bool
is_at h none = false
is_at h (some c) = c.handle == h

holds-delete :
    (h : ℕ) (k : String) (m : Map Conn)
    → IsUnique m
    → holds h m ≡ true
    → holds h (delete k m) || is_at h (lookup k m) ≡ true
unfolding holds delete lookup
holds-delete h k [] u v = absurd (ground (arith, v))
holds-delete h k ((j, c) ∷ m) u v = ground (arith, v, u.0, is_iff j k, holds-delete h k m u.1)

-- A connection that the table loses with a key is closed.
pub delete-IsTidy :
    (hub : Hub) (k : String) (c : Conn)
    → lookup k hub.conns ≡ some c
    → IsTidy hub
    → IsTidy (record (close hub c) { conns = delete k hub.conns })
delete-IsTidy hub k c found v = record {
  unique = delete-IsUnique k hub.conns v.unique;
  reached = λ h lt. ground (arith, found, v.reached h lt, holds-delete h k hub.conns v.unique);
}

-- An entry takes the place of one with the same connection, or of none.
insert-IsTidy :
    (hub : Hub) (k : String) (c : Conn)
    → ((h : ℕ)
        → h < hub.next
        → is_at h (lookup k hub.conns) ≡ true
        → (is_closed h hub.closed || (c.handle == h)) ≡ true)
    → IsTidy hub
    → IsTidy (record hub { conns = insert k c hub.conns })
insert-IsTidy hub k c same v = record {
  unique = insert-IsUnique k c hub.conns v.unique;
  reached = λ h lt.
      unfold insert holds in
      ground (arith, v.reached h lt, holds-delete h k hub.conns v.unique, same h lt);
}

pub start-IsTidy :
    (hub : Hub) (key addr : String) (port : ℕ)
    → ((h : ℕ) → is_at h (lookup key hub.conns) ≡ true → is_closed h hub.closed ≡ true)
    → IsTidy hub
    → IsTidy (start hub key addr port)
unfolding start
start-IsTidy hub key addr port gone v = record {
  unique = insert-IsUnique key (new_conn hub.next key addr port) hub.conns v.unique;
  reached = λ h lt.
      unfold insert holds in
      ground (arith, v.reached h, holds-delete h key hub.conns v.unique, gone h);
}

-- The entry moves to a key that is free.
pub rekey-IsTidy :
    (hub : Hub) (old dev : String) (c : Conn)
    → lookup old hub.conns ≡ some c
    → lookup dev hub.conns ≡ none
    → IsTidy hub
    → IsTidy (rekey hub old dev c)
unfolding rekey
rekey-IsTidy hub old dev c found free v =
    let rest = delete old hub.conns in
    let unique' = delete-IsUnique old hub.conns v.unique in
    record {
      unique = insert-IsUnique dev (record c { device_id = dev }) rest unique';
      reached = λ h lt.
          unfold insert holds in
          ground (
            arith,
            v.reached h lt,
            found,
            free,
            lookup-delete dev old hub.conns,
            holds-delete h old hub.conns v.unique,
            holds-delete h dev rest unique',
          );
    }

pub nudge-IsTidy :
    (hub : Hub) (k : String) (c : Conn)
    → lookup k hub.conns ≡ some c
    → IsTidy hub
    → IsTidy (nudge hub k c)
unfolding nudge
nudge-IsTidy hub k c found v =
    insert-IsTidy hub k (record c { nudged = true }) (λ h lt at. ground (arith, at, found)) v

close-IsTidy : (hub : Hub) (c : Conn) → IsTidy hub → IsTidy (close hub c)
close-IsTidy hub c v = record {
  unique = v.unique;
  reached = λ h lt. ground (arith, v.reached h lt);
}

-- The old connection under a key is closed before another one takes the key.
pub restart-IsTidy :
    (hub : Hub) (key addr : String) (port : ℕ) (c : Conn)
    → lookup key hub.conns ≡ some c
    → IsTidy hub
    → IsTidy (start (close hub c) key addr port)
restart-IsTidy hub key addr port c found v =
    start-IsTidy (close hub c) key addr port (λ h at. ground (arith, at, found))
      (close-IsTidy hub c v)

pub if-IsTidy : (b : Bool) (s t : Hub) → IsTidy s → IsTidy t → IsTidy (if b then s else t)
if-IsTidy true s t v w = v
if-IsTidy false s t v w = w

pub connect-IsTidy :
    (hub : Hub) (dev addr : String) (port : ℕ) → IsTidy hub → IsTidy (connect hub dev addr port)
unfolding connect
connect-IsTidy hub dev addr port v = elim (Option-cases (lookup dev hub.conns)) [
  | inl missing ↦
      rw (missing, connect)
        (start-IsTidy hub dev addr port (λ h at. absurd (ground (arith, at, missing))) v)
  | inr (c, found) ↦
      rw (found, connect)
        (if-IsTidy c.connected hub
          (if is_to c addr port then nudge hub dev c else start (close hub c) dev addr port) v
          (if-IsTidy (is_to c addr port) (nudge hub dev c) (start (close hub c) dev addr port)
            (nudge-IsTidy hub dev c found v) (restart-IsTidy hub dev addr port c found v)))
]

pub endpoint_of-lookup :
    (m : Map Conn) (order : List String) (addr : String) (port : ℕ) (k : String) (c : Conn)
    → endpoint_of m order addr port ≡ some (k, c)
    → lookup k m ≡ some c
unfolding endpoint_of
endpoint_of-lookup m [] addr port k c h = absurd (ground (arith, h))
endpoint_of-lookup m (j ∷ ks) addr port k c h =
    ground (arith, h, endpoint_of-lookup m ks addr port k c)

pub adoptable_of-lookup :
    (m : Map Conn) (order : List String) (addr dev k : String) (c : Conn)
    → adoptable_of m order addr dev ≡ some (k, c)
    → lookup k m ≡ some c
unfolding adoptable_of
adoptable_of-lookup m [] addr dev k c h = absurd (ground (arith, h))
adoptable_of-lookup m (j ∷ ks) addr dev k c h =
    ground (arith, h, adoptable_of-lookup m ks addr dev k c)
