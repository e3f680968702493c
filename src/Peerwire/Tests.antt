-- ===== src/Peerwire/Tests.antt =====
-- Two peers on the wire: what their frames set off, and a table of connections.
use we_sync.Base.{
  ◌≡◌, refl, Bool, true, false, [], ◌∷◌, none, some, String, pos, ◌is◌, lookup, arith,
}
use we_sync.Peerwire.Message.{Message, Callbacks, folder_offer, IsFrom}
use we_sync.Peerwire.Inbound.{no_cert, cert, Rules, read_inbound}
use we_sync.Peerwire.Inbound.Auth.{read_inbound-IsFrom}
use we_sync.Peerwire.Outbound.{Dialled, read_loop}
use we_sync.Peerwire.Outbound.Auth.{read_loop-IsFrom}
use we_sync.Peerwire.Offers.{Self, Pending, offers, no_message}
use we_sync.Peerwire.Offers.Queue as Queue
use we_sync.Peerwire.Offers.Queue.{find, nexts, queues, cancels, run-find, send_hello-find}
use we_sync.Peerwire.Hub.{Hub, new_conn}
use we_sync.Peerwire.Hub.Leak.{IsTidy}
use we_sync.Peerwire.Hub.Moves as Moves
use we_sync.Peerwire.Hub.Moves.{connects, adopts, run-IsTidy, adopt_conn_lost}
use we_sync.RateLimit.{new, allow, swept, sweep, count_call}
use we_sync.Peerwire.Serve.{
  new_inbound, serve_ws, register, leave, store, take_all, close_next, Step, serves, registers,
  stores, takes, closes, step, run,
}
use we_sync.Peerwire.Serve.Silent.{run-silent}
use we_sync.Base.{List}

abbrev all_set : Callbacks
all_set = record {
  on_accepted = true;
  on_cancelled = true;
  on_hello = true;
  on_peer_state = true;
  on_trusted = true;
  on_folder_offer = true;
  on_folder_accept = true;
  on_folder_decline = true;
  on_folder_remove = true;
  on_folder_sync = true;
  on_peer_verified = true;
  on_validate_cert_fp = none;
}

-- Only the device P is let in.
abbrev only_paired : Rules
only_paired = record { cb = all_set; accept_filter = some (λ id. id is "P") }

abbrev greeting : Message
greeting = record no_message { name = "laptop" }

abbrev false_offer : Message
false_offer = record no_message { kind = folder_offer; device_id = "P"; folder_id = "photos" }

read_inbound-IsFrom_example :
    IsFrom "X" (read_inbound only_paired (cert "f0" "X") "10.0.0.7" (some false_offer ∷ none ∷ []))
    × (read_inbound only_paired no_cert "10.0.0.7" (some false_offer ∷ none ∷ []) ≡ [])
unfolding ◌is◌
read_inbound-IsFrom_example =
    read_inbound-IsFrom only_paired "f0" "X" "10.0.0.7" (some false_offer ∷ none ∷ []) refl

abbrev dialled : Dialled
dialled = record { remote_cert_fp = "f0"; remote_device_id = "X"; key = "X" }

read_loop-IsFrom_example :
    IsFrom "X" (read_loop all_set dialled "10.0.0.7" false (some greeting ∷ some false_offer ∷ []))
unfolding ◌is◌
read_loop-IsFrom_example =
    read_loop-IsFrom all_set dialled "10.0.0.7" greeting (some false_offer ∷ []) refl refl refl

abbrev nobody : String → Bool
nobody id = false

abbrev everybody : String → Bool
everybody id = true

run-find_example :
    find "photos" (offers (Queue.run [] (queues "P" false_offer ∷ cancels "P" "music" ∷ [])) "P")
    ≡ nexts "P" "photos" none (queues "P" false_offer ∷ cancels "P" "music" ∷ [])
unfolding find lookup
run-find_example = run-find [] (queues "P" false_offer ∷ cancels "P" "music" ∷ []) "P" "photos"

abbrev self : Self
self = record {
  self_id = "S";
  self_port = pos 8385;
  self_st_port = pos 22000;
  self_cert_fp = "e0";
  self_name = "desk";
  self_info = record { hostname = "desk"; os = "linux"; os_ver = "6"; ifaces = [] };
}

abbrev waiting : Pending
waiting = ("P", false_offer ∷ []) ∷ []

-- No connection yet; and one in backoff under the device's ID beside a new one.
abbrev empty_hub : Hub
empty_hub = record { conns = []; closed = []; next = 0 }

empty_hub-IsTidy : IsTidy empty_hub
empty_hub-IsTidy = record { unique = tt; reached = λ h lt. absurd (omega (arith, lt)) }

run-IsTidy_example :
    IsTidy (Moves.run empty_hub (connects "X" "10.0.0.7" 8385 ∷ connects "X" "10.0.0.8" 8385 ∷ []))
run-IsTidy_example =
    run-IsTidy empty_hub (connects "X" "10.0.0.7" 8385 ∷ connects "X" "10.0.0.8" 8385 ∷ [])
      (tt, (tt, tt)) empty_hub-IsTidy

abbrev moved : Hub
moved = record {
  conns = ("s1", new_conn 1 "s1" "10.0.0.8" 8385) ∷ ("X", new_conn 0 "X" "10.0.0.7" 8385) ∷ [];
  closed = [];
  next = 2;
}

-- A connection that is on its way to the table when the app leaves the foreground.
abbrev late : List Step
late = serves 1 "10.0.0.3" "" 5 ∷ stores false ∷ takes ∷ closes ∷ registers 1 ∷ []

-- It stays open, and is read from, while the wire does not accept.
late_end :
    ((run new_inbound late).accepting ≡ false)
    × (((run new_inbound late).live ≡ 1 ∷ []) × ((run new_inbound late).to_close ≡ []))
unfolding run step serve_ws register leave store take_all close_next new_inbound allow swept
    count_call sweep new ◌is◌ lookup
late_end = (refl, (refl, refl))

run-silent_example :
    (run
      (take_all
        (run (store (run new_inbound (serves 1 "10.0.0.3" "" 5 ∷ registers 1 ∷ [])) false) []))
      (serves 2 "10.0.0.4" "" 7 ∷ closes ∷ [])).live
    ≡ []
unfolding run step serve_ws register leave store take_all close_next new_inbound allow swept
    count_call sweep new ◌is◌ lookup
run-silent_example =
    run-silent (serves 1 "10.0.0.3" "" 5 ∷ registers 1 ∷ []) []
      (serves 2 "10.0.0.4" "" 7 ∷ closes ∷ []) refl refl refl refl
