-- ===== src/Syncthing/Relay.antt =====
-- internal/syncthing/config.go: what is shown of the relay and of the global discovery. The
-- statuses come in the order of `sortedKeys`.
use we_sync.Base.{
  ℕ, ◌+◌, Bool, true, false, not, ◌&&◌, ◌||◌, List, [], ◌∷◌, ◌++◌, Option, none, some, String,
  if◌then◌else◌, ◌is◌, ltb, any, or_else, ◌≡◌, refl, ap, ◌∙◌, arith, is_some,
}
use we_sync.Syncthing.Connect.{has_prefix, is_relay_source}

pub record ListenerStatus : Type 0 where
  pub error : Option String
  pub lan_addresses : List String
  pub wan_addresses : List String

pub record RelayStatus : Type 0 where
  pub live : Bool
  pub address : String
  pub error : String

abbrev pub is_relay_address : String → Bool
is_relay_address a = has_prefix a 8 "relay://"

-- The inner loop, none if it runs to its end.
unfoldable pub relay_address : List String → Option String
relay_address [] = none
relay_address (a ∷ more) =
    let rest = relay_address more in if is_relay_address a then some a else rest

unfoldable pub relay_error : String → String → ListenerStatus → String
relay_error last key st =
    let e = or_else "" st.error in if is_relay_source key && not (e is "") then e else last

unfoldable pub relay_status_loop : String → List (String × ListenerStatus) → RelayStatus
unfolding relay_error
relay_status_loop last [] = record { live = false; address = ""; error = last }
relay_status_loop last ((key, st) ∷ css) =
    let rest = relay_status_loop (relay_error last key st) css in
    elim (relay_address (st.wan_addresses ++ st.lan_addresses)) [
      | some a ↦ record { live = true; address = a; error = "" }
      | none ↦ rest
    ]

unfoldable pub relay_status_from : List (String × ListenerStatus) → RelayStatus
unfolding relay_status_loop
relay_status_from css = relay_status_loop "" css

pub record GlobalDiscoveryStatus : Type 0 where
  pub live : Bool
  pub servers : ℕ
  pub reachable : ℕ  -- `OK`
  pub error : String

-- A server's key with its error; `*e.Error == ""` counts as none.
abbrev pub is_global : String → Bool
is_global key = has_prefix key 6 "global"

unfoldable pub discovery_loop : List (String × Option String) → ℕ → ℕ → String → ℕ × (ℕ × String)
discovery_loop [] servers reached last = (servers, (reached, last))
discovery_loop ((key, e) ∷ ds) servers reached last =
    if not (is_global key)
    then discovery_loop ds servers reached last
    else (if or_else "" e is ""
        then discovery_loop ds (servers + 1) (reached + 1) last
        else discovery_loop ds (servers + 1) reached (or_else "" e))

unfoldable pub discovery_status_from : List (String × Option String) → GlobalDiscoveryStatus
unfolding discovery_loop
discovery_status_from ds =
    let (servers, rest) = discovery_loop ds 0 0 "" in
    record {
      live = ltb 0 rest.0;
      servers = servers;
      reachable = rest.0;
      error = if ltb 0 rest.0 then "" else rest.1;
    }

relay_address-any :
    (addrs : List String) → is_some (relay_address addrs) ≡ any is_relay_address addrs
unfolding relay_address
relay_address-any [] = refl
relay_address-any (a ∷ more) = ground (arith, relay_address-any more)

abbrev pub offers_relay : String × ListenerStatus → Bool
offers_relay (key, st) = any is_relay_address (st.wan_addresses ++ st.lan_addresses)

relay_loop-any :
    (last : String) (css : List (String × ListenerStatus))
    → (relay_status_loop last css).live ≡ any offers_relay css
unfolding relay_status_loop
relay_loop-any last [] = refl
relay_loop-any last ((key, st) ∷ css) = ground (
  arith,
  relay_address-any (st.wan_addresses ++ st.lan_addresses),
  relay_loop-any (relay_error last key st) css,
)

-- The relay is shown live exactly if some listener has a relay address.
pub relay_status-any :
    (css : List (String × ListenerStatus)) → (relay_status_from css).live ≡ any offers_relay css
unfolding relay_status_from
relay_status-any css = relay_loop-any "" css

abbrev pub reaches : String × Option String → Bool
reaches (key, e) = is_global key && (or_else "" e is "")

discovery_loop-any :
    (ds : List (String × Option String)) (servers reached : ℕ) (last : String)
    → ltb 0 (discovery_loop ds servers reached last).1.0 ≡ (ltb 0 reached || any reaches ds)
unfolding discovery_loop
discovery_loop-any [] servers reached last = ground arith
discovery_loop-any ((key, e) ∷ ds) servers reached last = ground (
  arith,
  discovery_loop-any ds servers reached last,
  discovery_loop-any ds (servers + 1) (reached + 1) last,
  discovery_loop-any ds (servers + 1) reached (or_else "" e),
)

-- Global discovery is shown live exactly if some global server has no error.
pub discovery_status-any :
    (ds : List (String × Option String)) → (discovery_status_from ds).live ≡ any reaches ds
unfolding discovery_status_from
discovery_status-any ds = discovery_loop-any ds 0 0 ""

-- `ConnectivityStatus`, of one read of the system status.
unfoldable pub connectivity_status :
    Option (List (String × ListenerStatus) × List (String × Option String))
    → Option (RelayStatus × GlobalDiscoveryStatus)
unfolding relay_status_from discovery_status_from
connectivity_status none = none
connectivity_status (some (css, ds)) = some (relay_status_from css, discovery_status_from ds)

abbrev live_of : Option (RelayStatus × GlobalDiscoveryStatus) → Option (Bool × Bool)
live_of none = none
live_of (some (r, d)) = some (r.live, d.live)

-- Of a system status that was read, the relay is shown live exactly if some listener has a relay
-- address, and global discovery exactly if some global server has no error.
pub connectivity_status-any :
    (css : List (String × ListenerStatus)) (ds : List (String × Option String))
    → live_of (connectivity_status (some (css, ds))) ≡ some (any offers_relay css, any reaches ds)
unfolding connectivity_status
connectivity_status-any css ds =
    ap (λ r. some (r, (discovery_status_from ds).live)) (relay_status-any css)
    ∙ ap (λ d. some (any offers_relay css, d)) (discovery_status-any ds)
