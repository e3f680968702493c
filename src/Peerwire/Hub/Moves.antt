-- ===== src/Peerwire/Hub/Moves.antt =====
-- The hub through any calls: which goroutines of its connections run on.
use we_sync.Base.{
  delete, insert, ◌==◌, ℕ, refl, ℕ, ◌≡◌, ◌⊎◌, inl, inr, Bool, true, false, not, ◌&&◌, ◌||◌, List,
  [], ◌∷◌, none, some, String, Map, lookup, delete, if◌then◌else◌, ◌is◌, arith, Option-cases,
  Bool-cases,
}
use we_sync.Peerwire.Hub.{
  disconnect_all, Conn, Hub, close, nudge, connect, endpoint_of, connect_by_sid, drop_untrusted_sid,
  rekey, adopt_conn, adoptable_of, adopt_conn_by_addr, disconnect, disconnect_except, link, learn,
  is_live,
}
use we_sync.Peerwire.Hub.Leak.{
  holds, is_closed, is_reached, IsTidy, delete-IsTidy, start-IsTidy, rekey-IsTidy, nudge-IsTidy,
  restart-IsTidy, if-IsTidy, connect-IsTidy, endpoint_of-lookup, adoptable_of-lookup,
}
use we_sync.Peerwire.Hub.Entries.{disconnect_except-IsTidy, link-IsTidy, learn-IsTidy}

pub data Call : Type 0 where
  connects : String → String → ℕ → Call
  connects_sid : List String → String → String → ℕ → Call
  drops : String → (String → Bool) → Call
  adopts : String → String → Call
  adopts_addr : List String → String → String → Call
  disconnects : String → Call
  keeps : Map Bool → Call
  keeps_none : Call
  links : ℕ → Bool → Call
  learns : ℕ → String → Call

unfoldable pub apply : Hub → Call → Hub
apply hub (connects dev addr port) = connect hub dev addr port
apply hub (connects_sid order sid addr port) = (connect_by_sid hub order sid addr port).0
apply hub (drops sid is_trusted) = drop_untrusted_sid hub sid is_trusted
apply hub (adopts old dev) = adopt_conn hub old dev
apply hub (adopts_addr order addr dev) = adopt_conn_by_addr hub order addr dev
apply hub (disconnects dev) = disconnect hub dev
apply hub (keeps ids) = disconnect_except hub ids
apply hub keeps_none = disconnect_all hub
apply hub (links h on) = record hub { conns = link h on hub.conns }
apply hub (learns h dev) = record hub { conns = learn h dev hub.conns }

unfoldable pub run : Hub → List Call → Hub
unfolding apply
run hub [] = hub
run hub (c ∷ cs) = run (apply hub c) cs

-- An adoption finds no connection in backoff under the device's ID.
abbrev pub IsFree : Hub → Call → Type 0
IsFree hub (adopts old dev) =
    (lookup dev hub.conns ≡ none) ⊎ (is_live (lookup dev hub.conns) ≡ true)
IsFree hub _ = Unit

abbrev pub AllFree : Hub → List Call → Type 0
AllFree hub [] = Unit
AllFree hub (c ∷ cs) = IsFree hub c × AllFree (apply hub c) cs

connect_by_sid-IsTidy :
    (hub : Hub) (order : List String) (sid addr : String) (port : ℕ)
    → IsTidy hub
    → IsTidy (connect_by_sid hub order sid addr port).0
unfolding connect_by_sid
connect_by_sid-IsTidy hub order sid addr port v =
    elim (Bool-cases (is_live (lookup sid hub.conns))) [
      | inl live ↦ rw live v
      | inr down ↦ elim (Option-cases (endpoint_of hub.conns order addr port)) [
        | inr ((k, c), found) ↦
            rw (down, found)
              (if-IsTidy c.connected hub (nudge hub k c) v
                (nudge-IsTidy hub k c (endpoint_of-lookup hub.conns order addr port k c found) v))
        | inl nowhere ↦ elim (Option-cases (lookup sid hub.conns)) [
          | inl missing ↦
              rw (down, nowhere, missing)
                (start-IsTidy hub sid addr port (λ h at. absurd (ground (arith, at, missing))) v)
          | inr (c, found) ↦ rw (down, nowhere, found) (restart-IsTidy hub sid addr port c found v)
        ]
      ]
    ]

drop_untrusted_sid-IsTidy :
    (hub : Hub) (sid : String) (is_trusted : String → Bool)
    → IsTidy hub
    → IsTidy (drop_untrusted_sid hub sid is_trusted)
unfolding drop_untrusted_sid
drop_untrusted_sid-IsTidy hub sid is_trusted v = elim (Option-cases (lookup sid hub.conns)) [
  | inl missing ↦ rw (missing, drop_untrusted_sid) v
  | inr (c, found) ↦
      let dev_id = if c.remote_device_id is "" then c.device_id else c.remote_device_id in
      rw (found, drop_untrusted_sid)
        (if-IsTidy (not (dev_id is "") && not (dev_id is sid) && is_trusted dev_id) hub
          (record (close hub c) { conns = delete sid hub.conns }) v
          (delete-IsTidy hub sid c found v))
]

disconnect-IsTidy : (hub : Hub) (dev : String) → IsTidy hub → IsTidy (disconnect hub dev)
unfolding disconnect
disconnect-IsTidy hub dev v = elim (Option-cases (lookup dev hub.conns)) [
  | inl missing ↦ rw (missing, disconnect) v
  | inr (c, found) ↦ rw (found, disconnect) (delete-IsTidy hub dev c found v)
]

adopt_conn-IsTidy :
    (hub : Hub) (old dev : String)
    → (lookup dev hub.conns ≡ none) ⊎ (is_live (lookup dev hub.conns) ≡ true)
    → IsTidy hub
    → IsTidy (adopt_conn hub old dev)
unfolding adopt_conn
adopt_conn-IsTidy hub old dev free v =
    elim (Bool-cases ((old is dev) || (old is "") || (dev is ""))) [
      | inl same ↦ rw same v
      | inr other ↦ elim (Option-cases (lookup old hub.conns)) [
        | inl missing ↦ rw (other, missing) v
        | inr (c, found) ↦ elim free [
          | inl none_there ↦
              rw (other, found, none_there) (rekey-IsTidy hub old dev c found none_there v)
          | inr live ↦ rw (other, found, live) (delete-IsTidy hub old c found v)
        ]
      ]
    ]

adopt_conn_by_addr-IsTidy :
    (hub : Hub) (order : List String) (addr dev : String)
    → IsTidy hub
    → IsTidy (adopt_conn_by_addr hub order addr dev)
unfolding adopt_conn_by_addr
adopt_conn_by_addr-IsTidy hub order addr dev v = elim (Bool-cases ((addr is "") || (dev is ""))) [
  | inl empty ↦ rw empty v
  | inr named ↦ elim (Option-cases (lookup dev hub.conns)) [
    | inr (c, found) ↦ rw (named, found) v
    | inl free ↦ elim (Option-cases (adoptable_of hub.conns order addr dev)) [
      | inl nowhere ↦ rw (named, free, nowhere) v
      | inr ((k, c), found) ↦
          rw (named, free, found)
            (rekey-IsTidy hub k dev c (adoptable_of-lookup hub.conns order addr dev k c found) free
              v)
    ]
  ]
]

apply-IsTidy : (hub : Hub) (c : Call) → IsFree hub c → IsTidy hub → IsTidy (apply hub c)
unfolding apply
apply-IsTidy hub (connects dev addr port) free v = connect-IsTidy hub dev addr port v
apply-IsTidy hub (connects_sid order sid addr port) free v =
    connect_by_sid-IsTidy hub order sid addr port v
apply-IsTidy hub (drops sid is_trusted) free v = drop_untrusted_sid-IsTidy hub sid is_trusted v
apply-IsTidy hub (adopts old dev) free v = adopt_conn-IsTidy hub old dev free v
apply-IsTidy hub (adopts_addr order addr dev) free v =
    adopt_conn_by_addr-IsTidy hub order addr dev v
apply-IsTidy hub (disconnects dev) free v = disconnect-IsTidy hub dev v
apply-IsTidy hub (keeps ids) free v = disconnect_except-IsTidy hub ids v
apply-IsTidy hub keeps_none free v = unfold disconnect_all in disconnect_except-IsTidy hub [] v
apply-IsTidy hub (links h on) free v = link-IsTidy hub h on v
apply-IsTidy hub (learns h dev) free v = learn-IsTidy hub h dev v

-- From a hub where each key stands once and each connection that was started is closed or in the
-- hub, any calls lead to such a hub, if no adoption finds a connection in backoff under the ID of
-- the device: no goroutine of a connection runs on out of reach.
pub run-IsTidy : (hub : Hub) (cs : List Call) → AllFree hub cs → IsTidy hub → IsTidy (run hub cs)
unfolding run
run-IsTidy hub [] free v = v
run-IsTidy hub (c ∷ cs) free v = run-IsTidy (apply hub c) cs free.1 (apply-IsTidy hub c free.0 v)

holds-delete-delete :
    (h : ℕ) (j k : String) (m : Map Conn)
    → holds h (delete j m) ≡ false
    → holds h (delete j (delete k m)) ≡ false
unfolding holds delete
holds-delete-delete h j k [] e = refl
holds-delete-delete h j k ((i, c) ∷ m) e = ground (arith, e, holds-delete-delete h j k m)

-- An adoption that finds a connection in backoff under the ID of the device loses it: if that
-- connection is neither closed nor under another key, then afterwards it is neither closed nor under
-- any key, so its goroutine runs on out of reach.
pub adopt_conn_lost :
    (hub : Hub) (old dev : String) (c lost : Conn)
    → (old is dev) ≡ false
    → (old is "") ≡ false
    → (dev is "") ≡ false
    → lookup old hub.conns ≡ some c
    → lookup dev hub.conns ≡ some lost
    → lost.connected ≡ false
    → (c.handle == lost.handle) ≡ false
    → is_closed lost.handle hub.closed ≡ false
    → holds lost.handle (delete dev hub.conns) ≡ false
    → is_reached lost.handle (adopt_conn hub old dev) ≡ false
unfolding adopt_conn rekey
adopt_conn_lost hub old dev c lost other named known found there down two alive only =
    rw (other, named, known, found, there, down)
      (unfold insert holds in
        ground (arith, two, alive, holds-delete-delete lost.handle dev old hub.conns only))
