-- ===== src/Peerwire/Hub/Entries.antt =====
-- What a call does to the entries of the table one by one: the loop of `DisconnectExcept`, and what
-- a socket and a dial tell of a connection.
use we_sync.Base.{
  ℕ, ◌≡◌, refl, Bool, ◌||◌, List, [], ◌∷◌, ◌++◌, none, String, Map, lookup, IsUnique, arith,
}
use we_sync.Peerwire.Hub.{Conn, Hub, kept_of, dropped_of, disconnect_except, link, learn}
use we_sync.Peerwire.Hub.Leak.{IsTidy, holds, is_closed}

is_closed-append :
    (h : ℕ) (hs js : List ℕ) → is_closed h (hs ++ js) ≡ (is_closed h hs || is_closed h js)
is_closed-append h [] js = refl
is_closed-append h (x ∷ hs) js = ground (arith, is_closed-append h hs js)

lookup-kept_of-none :
    (keep : Map Bool) (k : String) (m : Map Conn)
    → lookup k m ≡ none
    → lookup k (kept_of keep m) ≡ none
unfolding lookup kept_of
lookup-kept_of-none keep k [] h = refl
lookup-kept_of-none keep k ((j, c) ∷ m) h = ground (arith, h, lookup-kept_of-none keep k m)

kept_of-IsUnique : (keep : Map Bool) (m : Map Conn) → IsUnique m → IsUnique (kept_of keep m)
unfolding kept_of
kept_of-IsUnique keep [] u = tt
kept_of-IsUnique keep ((j, c) ∷ m) u =
    ground (arith, kept_of-IsUnique keep m u.1, lookup-kept_of-none keep j m u.0)

holds-kept_of :
    (keep : Map Bool) (h : ℕ) (m : Map Conn)
    → holds h m ≡ (is_closed h (dropped_of keep m) || holds h (kept_of keep m))
unfolding holds kept_of dropped_of
holds-kept_of keep h [] = refl
holds-kept_of keep h ((j, c) ∷ m) = ground (arith, holds-kept_of keep h m)

pub disconnect_except-IsTidy :
    (hub : Hub) (keep : Map Bool) → IsTidy hub → IsTidy (disconnect_except hub keep)
unfolding disconnect_except
disconnect_except-IsTidy hub keep v = record {
  unique = kept_of-IsUnique keep hub.conns v.unique;
  reached = λ h lt. ground (
    arith,
    v.reached h lt,
    holds-kept_of keep h hub.conns,
    is_closed-append h (dropped_of keep hub.conns) hub.closed,
  );
}

holds-link : (h j : ℕ) (on : Bool) (m : Map Conn) → holds h (link j on m) ≡ holds h m
unfolding holds link
holds-link h j on [] = refl
holds-link h j on ((k, c) ∷ m) = ground (arith, holds-link h j on m)

lookup-link-none :
    (k : String) (j : ℕ) (on : Bool) (m : Map Conn)
    → lookup k m ≡ none
    → lookup k (link j on m) ≡ none
unfolding lookup link
lookup-link-none k j on [] h = refl
lookup-link-none k j on ((i, c) ∷ m) h = ground (arith, h, lookup-link-none k j on m)

link-IsUnique : (j : ℕ) (on : Bool) (m : Map Conn) → IsUnique m → IsUnique (link j on m)
unfolding link
link-IsUnique j on [] u = tt
link-IsUnique j on ((k, c) ∷ m) u = (lookup-link-none k j on m u.0, link-IsUnique j on m u.1)

holds-learn : (h j : ℕ) (dev : String) (m : Map Conn) → holds h (learn j dev m) ≡ holds h m
unfolding holds learn
holds-learn h j dev [] = refl
holds-learn h j dev ((k, c) ∷ m) = ground (arith, holds-learn h j dev m)

lookup-learn-none :
    (k : String) (j : ℕ) (dev : String) (m : Map Conn)
    → lookup k m ≡ none
    → lookup k (learn j dev m) ≡ none
unfolding lookup learn
lookup-learn-none k j dev [] h = refl
lookup-learn-none k j dev ((i, c) ∷ m) h = ground (arith, h, lookup-learn-none k j dev m)

learn-IsUnique : (j : ℕ) (dev : String) (m : Map Conn) → IsUnique m → IsUnique (learn j dev m)
unfolding learn
learn-IsUnique j dev [] u = tt
learn-IsUnique j dev ((k, c) ∷ m) u = (lookup-learn-none k j dev m u.0, learn-IsUnique j dev m u.1)

pub link-IsTidy :
    (hub : Hub) (h : ℕ) (on : Bool)
    → IsTidy hub
    → IsTidy (record hub { conns = link h on hub.conns })
link-IsTidy hub h on v = record {
  unique = link-IsUnique h on hub.conns v.unique;
  reached = λ j lt. ground (arith, v.reached j lt, holds-link j h on hub.conns);
}

pub learn-IsTidy :
    (hub : Hub) (h : ℕ) (dev : String)
    → IsTidy hub
    → IsTidy (record hub { conns = learn h dev hub.conns })
learn-IsTidy hub h dev v = record {
  unique = learn-IsUnique h dev hub.conns v.unique;
  reached = λ j lt. ground (arith, v.reached j lt, holds-learn j h dev hub.conns);
}
