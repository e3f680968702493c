-- ===== src/Api/Tests.antt =====
-- A peer that has needed the same bytes for more than a minute, and a folder of two devices.
use we_sync.Base.{ℕ, ◌+◌, ◌*◌, ◌≤◌, ◌≡◌, refl, true, List, [], ◌∷◌, none, some, pos, is_pos}
use we_sync.Mobile.Decision.{second}
use we_sync.Api.Completion.{
  Completion, Answers, stall_after, refresh_device, needs, last_progress_of,
}
use we_sync.Api.Stall.{Look, IsStuck, progress_of, shows_stalled, shows_stalled-IsStuck}
use we_sync.Base.{false, Option, String, map, All, length, codes, ◌++◌, ◌is◌, arith}
use we_sync.Api.UiHub.{
  new_hub, on_active_change, register, announce, unregister, report, Step, sets_callback, registers,
  announces, unregisters, reports, step, run,
}
use we_sync.Base.{◌||◌}
use we_sync.Api.UiHub.Broadcast.{
  updates, snapshots, new_client, Move, broadcasts, pumps, moves, messages, moves-served,
}
use we_sync.Api.Server.{Request, client_ip, pair_limiter, serve_all}
use we_sync.Api.Server.Limited.{handled_of, serve_all-limited}
use we_sync.Api.Conflicts.{marker, contains, conflict_original}
use we_sync.Api.Conflicts.Original.{conflict_original-copy}
use we_sync.Base.{lookup}
use we_sync.Peerwire.Message.{folder_offer}
use we_sync.Peerwire.Inbound.{cert, read_inbound}
use we_sync.Peerwire.Offers.{Self, Pending, no_message, send_hello}
use we_sync.Api.Strangers.Visit.{node_rules}
use we_sync.Api.Greeting.{greeting, send_hello-greeting}

abbrev behind : Completion
behind = record {
  completion = 40;
  need_bytes = pos 600;
  need_items = pos 2;
  need_deletes = pos 0;
  remote_state = "valid";
}

abbrev looks : List Look
looks =
    record { now = 40 * second; connected = true; comp = some behind }
    ∷ record { now = 10 * second; connected = true; comp = some behind }
    ∷ []

shows_stalled-IsStuck_example :
    (true ≡ true)
    × (is_pos (pos 600) ≡ true)
    × ((since : ℕ) × IsStuck since (80 * second) behind looks × (since + stall_after ≤ 80 * second))
unfolding shows_stalled refresh_device needs last_progress_of progress_of
shows_stalled-IsStuck_example = shows_stalled-IsStuck (80 * second) true behind looks refl

abbrev answers : Answers
answers = record {
  now = 80 * second;
  folders = some (("photos", "S" ∷ "X" ∷ []) ∷ []);
  connected = ("X", true) ∷ [];
  status = λ f. some (("X", 3) ∷ []);
  completion_of = λ f d. some behind;
  last_seen = none;
}

-- Two windows: the second opens while the callback of the first is still to come.
abbrev crossed : List Step
crossed =
    sets_callback
    ∷ registers 1
    ∷ announces 1
    ∷ unregisters 1
    ∷ registers 2
    ∷ announces 2
    ∷ reports 1
    ∷ []

-- The node is in the background, and window 2 is connected.
crossed_end : ((run new_hub crossed).foreground ≡ false) × ((run new_hub crossed).clients ≡ 2 ∷ [])
unfolding run step on_active_change register announce unregister report new_hub
crossed_end = (refl, refl)

abbrev two_pushes : List Move
two_pushes = broadcasts "a" ∷ snapshots 1 "s" ∷ pumps 2 ∷ broadcasts "b" ∷ []

moves-served_example :
    All
      (λ c.
        (length c.queue ≤ 16)
        × ((c.is_slow || c.is_closed) ≡ false
            → updates (c.written ++ c.queue) ≡ messages two_pushes))
      (moves (map new_client (1 ∷ 2 ∷ [])) two_pushes)
moves-served_example = moves-served (1 ∷ 2 ∷ []) two_pushes

abbrev pairing : Request
pairing = record {
  method = "POST";
  path = "/api/pair";
  origin = "";
  remote_addr = "127.0.0.1:5000";
}

abbrev host_of : String → Option String
host_of a = some "127.0.0.1"

serve_all-limited_example :
    handled_of host_of host_of "127.0.0.1"
      ((pairing, 5) ∷ (pairing, 6) ∷ (pairing, 9) ∷ [])
      (serve_all host_of host_of pair_limiter ((pairing, 5) ∷ (pairing, 6) ∷ (pairing, 9) ∷ []))
    ≤ 20
unfolding ◌is◌ client_ip
serve_all-limited_example =
    serve_all-limited host_of host_of pairing 5 ((pairing, 6) ∷ (pairing, 9) ∷ []) refl
      ((omega arith, omega arith), ((omega arith, omega arith), tt))

conflict_original-copy_example :
    conflict_original
      (codes "notes" ++ (marker ++ (codes "20240102-030405-ABCDEFG" ++ codes ".txt")))
    ≡ codes "notes" ++ codes ".txt"
unfolding contains
conflict_original-copy_example =
    conflict_original-copy (codes "notes") (codes "20240102-030405-ABCDEFG") (codes ".txt") refl
      refl refl

-- "X", with a certificate and a folder offer for "S".
abbrev writer : Self
writer = record {
  self_id = "X";
  self_port = pos 47821;
  self_st_port = pos 22000;
  self_cert_fp = "f";
  self_name = "x";
  self_info = record { hostname = "x"; os = ""; os_ver = ""; ifaces = [] };
}

abbrev waiting : Pending
waiting = ("S", record no_message { kind = folder_offer; folder_id = "photos" } ∷ []) ∷ []

send_hello-greeting_example :
    read_inbound
      (node_rules none)
      (cert "f" "X")
      "10.0.0.2"
      (map (λ m. some m) (send_hello writer waiting "S" (some true)).1)
    ≡ greeting writer "f" "X" "10.0.0.2" (some true)
unfolding ◌is◌ lookup
send_hello-greeting_example =
    send_hello-greeting writer waiting "S" "X" "10.0.0.2" (some true) refl refl refl
