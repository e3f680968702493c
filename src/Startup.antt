-- ===== src/Startup.antt =====
-- main.go: the settings from the environment, the backend that may be running already, and the order in
-- which the service starts. What the system answers are arguments, none for an error.
pub mod Takeover
pub mod Server
pub mod Leftover
mod Tests
use we_sync.Base.{
  ℕ, zero, suc, Bool, true, false, not, ◌||◌, ◌&&◌, List, [], ◌∷◌, ◌++◌, Option, none, some, String,
  if◌then◌else◌, ◌is◌, ℤ, or_else,
}

-- `getenv` is `os.Getenv`, and `atoi` is `strconv.Atoi`.
unfoldable pub env : (String → String) → String → String → String
env getenv key fallback = let v = getenv key in if not (v is "") then v else fallback

unfoldable pub env_int : (String → String) → (String → Option ℤ) → String → ℤ → ℤ
env_int getenv atoi key fallback =
    let v = getenv key in if not (v is "") then or_else fallback (atoi v) else fallback

unfoldable pub env_bool : (String → String) → String → Bool
env_bool getenv key = let v = getenv key in (v is "1") || (v is "true") || (v is "yes")

-- The loop of `reconcileExistingBackend`, with the tries that are left: `is_free` says of each try whether
-- the dial of the port failed.
unfoldable pub await_free : ℕ → ℕ → (ℕ → Bool) → Bool
await_free zero i is_free = false
await_free (suc left) i is_free =
    let rest = await_free left (suc i) is_free in if is_free i then true else rest

-- Whether to start, and whether the running backend is asked to exit. `running` is the build that
-- answers on the port.
unfoldable pub reconcile_existing_backend : Option String → String → (ℕ → Bool) → Bool × Bool
unfolding await_free
reconcile_existing_backend running build is_free = elim running [
  | none ↦ (true, false)
  | some other ↦ if other is build then (false, false) else (await_free 100 0 is_free, true)
]

-- What `run` does to the system, in order. `fatal` is `log.Fatalf`, which ends the process at once.
pub data Act : Type 0 where
  asks_exit takes_lock releases_lock : Act
  ensures_ready stops_syncthing : Act
  starts_syncthing : (ok : Bool) → Act
  runs_backend : (home : String) → Act
  fatal : Act

-- What the steps of `run` meet.
pub record Steps : Type 0 where
  pub running : Option String
  pub build : String
  pub is_free : ℕ → Bool
  pub lock_free : Bool
  pub db_path_ok : Bool
  pub st_key : String
  pub st_home : String
  pub default_home : String
  pub finds : Bool  -- `FindSyncthing`
  pub extracts : Bool  -- `ExtractEmbedded`
  pub ready : Bool  -- `EnsureReady`
  pub starts : Bool  -- `Start`
  pub static_ok : Bool  -- `fs.Sub`
  pub backend_ok : Bool  -- `backend.Run` ends without an error

-- From the static files on; `deferred` are the calls that a return runs.
unfoldable pub serve_files : Steps → String → List Act → List Act
serve_files e home deferred =
    if not e.static_ok
    then fatal ∷ []
    else if not e.backend_ok
    then runs_backend home ∷ fatal ∷ []
    else runs_backend home ∷ deferred

unfoldable pub with_syncthing : Steps → List Act → List Act
unfolding serve_files
with_syncthing e deferred =
    let home = if e.st_home is "" then e.default_home else e.st_home in
    if not (e.st_key is "")
    then serve_files e e.st_home deferred
    else if not e.finds && not e.extracts
    then fatal ∷ []
    else if not e.ready
    then ensures_ready ∷ fatal ∷ []
    else if not e.starts
    then ensures_ready ∷ starts_syncthing false ∷ fatal ∷ []
    else ensures_ready ∷ starts_syncthing true ∷ serve_files e home (stops_syncthing ∷ deferred)

unfoldable pub run : Steps → List Act
unfolding reconcile_existing_backend with_syncthing
run e =
    let (goes_on, asks) = reconcile_existing_backend e.running e.build e.is_free in
    let asked = if asks then asks_exit ∷ [] else [] in
    if not goes_on
    then asked
    else if not e.lock_free
    then asked
    else if not e.db_path_ok
    then asked ++ (takes_lock ∷ fatal ∷ [])
    else asked ++ (takes_lock ∷ with_syncthing e (releases_lock ∷ []))

-- `runSyncthingService`.
unfoldable pub run_syncthing_service : Steps → List Act
run_syncthing_service e =
    if not e.finds && not e.extracts
    then fatal ∷ []
    else if not e.ready
    then ensures_ready ∷ fatal ∷ []
    else if not e.starts
    then ensures_ready ∷ starts_syncthing false ∷ fatal ∷ []
    else ensures_ready ∷ starts_syncthing true ∷ stops_syncthing ∷ []
