-- ===== src/Syncthing/Connect.antt =====
-- internal/syncthing/config.go: the connectivity profiles, as the PATCH requests that are sent.
-- Syncthing merges the fields that a request has into its options.
use we_sync.Base.{
  ℕ, Bool, true, false, ◌&&◌, ◌||◌, List, [], ◌∷◌, ◌++◌, Option, none, some, String, if◌then◌else◌,
  ◌is◌, ◌==◌, any, prefix, or_else, ◌≡◌, refl, ap, ◌∙◌, arith, Option-cases, Bool-cases, inl, inr,
  ℤ, negsuc,
}

pub record LockOptions : Type 0 where
  pub global_announce_enabled : Bool
  pub global_announce_servers : Option (List String)  -- none for Go's nil
  pub local_announce_enabled : Bool
  pub relays_enabled : Bool
  pub nat_enabled : Bool
  pub ur_accepted : ℤ
  pub stun_keepalive_start : ℕ
  pub stun_keepalive_min : ℕ

pub data Patch : Type 0 where
  lock : LockOptions → Patch
  listen : List String → Patch

unfoldable pub profile : ℕ → LockOptions
profile level = record {
  global_announce_enabled = (level == 2) || (level == 3);
  global_announce_servers = if (level == 2) || (level == 3) then none else some [];
  local_announce_enabled = true;
  relays_enabled = level == 3;
  nat_enabled = (level == 2) || (level == 3);
  ur_accepted = negsuc 0;
  stun_keepalive_start = 180;
  stun_keepalive_min = 20;
}

unfoldable pub has_prefix : String → ℕ → String → Bool
has_prefix s n p = prefix n s is p

unfoldable pub is_relay_source : String → Bool
unfolding has_prefix
is_relay_source s = (s is "default") || has_prefix s 7 "dynamic" || has_prefix s 8 "relay://"

abbrev pub relay_listen_addr : String
relay_listen_addr = "dynamic+https://relays.syncthing.net/endpoint"

-- The patch that `ensureRelayListenAddress` sends to a node with these addresses, if any.
unfoldable pub relay_patch : List String → Option (List String)
relay_patch addrs =
    if any is_relay_source addrs
    then none
    else some
        (elim addrs [ [] ↦ "default" ∷ [] | a ∷ more ↦ (a ∷ more) ++ (relay_listen_addr ∷ []) ])

-- The requests that were sent, and whether there was no error. `accepts` says which requests
-- Syncthing accepts, `options` is its answer to `GetOptions`.
unfoldable pub ensure_relay_listen_address :
    (Patch → Bool) → Option (List String) → List Patch × Bool
unfolding relay_patch
ensure_relay_listen_address accepts none = ([], false)
ensure_relay_listen_address accepts (some addrs) = elim (relay_patch addrs) [
  | none ↦ ([], true)
  | some next ↦ (listen next ∷ [], accepts (listen next))
]

unfoldable pub set_connectivity_level :
    (Patch → Bool) → Option (List String) → ℕ → List Patch × Bool
unfolding profile ensure_relay_listen_address
set_connectivity_level accepts options level =
    if (level == 3) && accepts (lock (profile level))
    then (
      lock (profile level) ∷ (ensure_relay_listen_address accepts options).0,
      (ensure_relay_listen_address accepts options).1,
    )
    else (lock (profile level) ∷ [], accepts (lock (profile level)))

-- `LockToLocalNetwork`.
abbrev pub lock_to_local_network : (Patch → Bool) → Option (List String) → List Patch × Bool
lock_to_local_network accepts options = set_connectivity_level accepts options 1

-- The merge of the requests: the options, then the listen addresses.
abbrev pub merged : LockOptions → List Patch → LockOptions
merged o [] = o
merged o (lock p ∷ ps) = merged p ps
merged o (listen addrs ∷ ps) = merged o ps

abbrev pub listening : List String → List Patch → List String
listening addrs [] = addrs
listening addrs (lock p ∷ ps) = listening addrs ps
listening addrs (listen next ∷ ps) = listening next ps

default-IsRelay : is_relay_source "default" ≡ true
unfolding is_relay_source ◌is◌
default-IsRelay = refl

pool-IsRelay : is_relay_source relay_listen_addr ≡ true
unfolding is_relay_source ◌is◌
pool-IsRelay = refl

-- After a relay patch, and without the need of one, some address is a relay's.
relay_patch-covers :
    (addrs : List String) → any is_relay_source (or_else addrs (relay_patch addrs)) ≡ true
unfolding relay_patch
relay_patch-covers addrs = elim (Bool-cases (any is_relay_source addrs)) [
  | inl e ↦ rw (e, relay_patch) e
  | inr e ↦ rw (e, relay_patch) (covered addrs)
]
  where
    any_last :
        (addrs : List String) (s : String)
        → is_relay_source s ≡ true
        → any is_relay_source (addrs ++ (s ∷ [])) ≡ true
    any_last [] s h = ground (arith, h)
    any_last (a ∷ addrs) s h = ground (arith, any_last addrs s h)

    covered :
        (addrs : List String)
        → any is_relay_source
            (elim addrs [ [] ↦ "default" ∷ [] | a ∷ bs ↦ (a ∷ bs) ++ (relay_listen_addr ∷ []) ])
          ≡ true
    covered [] = ground (arith, default-IsRelay)
    covered (a ∷ bs) = any_last (a ∷ bs) relay_listen_addr pool-IsRelay

ensure-merged :
    (accepts : Patch → Bool) (options : Option (List String)) (o : LockOptions)
    → merged o (ensure_relay_listen_address accepts options).0 ≡ o
unfolding ensure_relay_listen_address
ensure-merged accepts none o = refl
ensure-merged accepts (some addrs) o = elim (Option-cases (relay_patch addrs)) [
  | inl e ↦ rw (e, ensure_relay_listen_address) refl
  | inr (next, e) ↦ rw (e, ensure_relay_listen_address) refl
]

ensure-listening :
    (accepts : Patch → Bool) (addrs : List String)
    → listening addrs (ensure_relay_listen_address accepts (some addrs)).0
      ≡ or_else addrs (relay_patch addrs)
unfolding ensure_relay_listen_address
ensure-listening accepts addrs = elim (Option-cases (relay_patch addrs)) [
  | inl e ↦ rw (e, ensure_relay_listen_address) refl
  | inr (next, e) ↦ rw (e, ensure_relay_listen_address) refl
]

-- Whatever Syncthing answers, the requests of `SetConnectivityLevel` leave the options of the
-- level's profile: relays are on at level 3 alone, global discovery and NAT traversal at levels 2
-- and 3 alone, local discovery always.
pub level-merged :
    (accepts : Patch → Bool) (options : Option (List String)) (level : ℕ) (o : LockOptions)
    → (merged o (set_connectivity_level accepts options level).0 ≡ profile level)
      × ((profile level).relays_enabled ≡ (level == 3))
      × ((profile level).nat_enabled ≡ ((level == 2) || (level == 3)))
      × ((profile level).global_announce_enabled ≡ ((level == 2) || (level == 3)))
      × ((profile level).local_announce_enabled ≡ true)
unfolding set_connectivity_level profile
level-merged accepts options level o = (
  elim (Bool-cases ((level == 3) && accepts (lock (profile level)))) [
    | inl e ↦ rw (e, set_connectivity_level) (ensure-merged accepts options (profile level))
    | inr e ↦ rw (e, set_connectivity_level) refl
  ],
  refl,
  refl,
  refl,
  refl,
)

-- If `SetConnectivityLevel 3` succeeds, the addresses that Syncthing listened on, as it answered
-- them, with the request that was sent merged in, have a relay among them.
pub level-relay :
    (accepts : Patch → Bool) (addrs : List String)
    → (set_connectivity_level accepts (some addrs) 3).1 ≡ true
    → any is_relay_source (listening addrs (set_connectivity_level accepts (some addrs) 3).0) ≡ true
unfolding set_connectivity_level
level-relay accepts addrs h = elim (Bool-cases (accepts (lock (profile 3)))) [
  | inl e ↦
      rw (e, set_connectivity_level)
        (ap (any is_relay_source) (ensure-listening accepts addrs) ∙ relay_patch-covers addrs)
  | inr e ↦ ground (arith, h, e)
]
