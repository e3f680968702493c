-- ===== src/Startup/Tests.antt =====
-- A service that starts Syncthing, and a backend that ends with an error.
use we_sync.Base.{true, false, not, ◌&&◌, [], ◌∷◌, none, some, any, pos, ◌≡◌, refl, ◌is◌}
use we_sync.Startup.{
  Steps, run, with_syncthing, serve_files, reconcile_existing_backend, takes_lock, ensures_ready,
  starts_syncthing, runs_backend, fatal,
}
use we_sync.Startup.Leftover.{is_start, leaves_running, run-leaves_running}
use we_sync.Startup.Server.{Answers, backend_run}
use we_sync.Startup.Server.Order.{is_orderly, backend_run-orderly}

abbrev failing : Steps
failing = record {
  running = none;
  build = "2";
  is_free = λ i. true;
  lock_free = true;
  db_path_ok = true;
  st_key = "";
  st_home = "";
  default_home = "/home";
  finds = true;
  extracts = false;
  ready = true;
  starts = true;
  static_ok = true;
  backend_ok = false;
}

-- Syncthing is started, and nothing stops it.
failing-run :
    run failing
    ≡ takes_lock ∷ ensures_ready ∷ starts_syncthing true ∷ runs_backend "/home" ∷ fatal ∷ []
unfolding run with_syncthing serve_files reconcile_existing_backend ◌is◌
failing-run = refl

run-leaves_running_example :
    leaves_running (run failing) ≡ (any is_start (run failing) && not (true && false))
run-leaves_running_example = run-leaves_running failing

abbrev first_launch : Answers
first_launch = record {
  st_key = "k";
  st_home = "/home/syncthing";
  debug = false;
  hostname_override = "";
  api_key = none;
  status = λ i. some "S";
  lock_ok = true;
  db_ok = true;
  hostname = "desk";
  saved_name = none;
  discovery_ok = true;
  cert_ok = true;
  level = pos 1;
  visible = true;
}

backend_run-orderly_example : is_orderly false false (backend_run first_launch).0 ≡ true
backend_run-orderly_example = backend_run-orderly first_launch
