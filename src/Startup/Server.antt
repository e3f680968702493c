-- ===== src/Startup/Server.antt =====
-- `Run` of internal/backend/backend.go: the order in which the backend starts. `runTicker` and the
-- goroutines begin with `listens`.
pub mod Order
use we_sync.Base.{
  ℕ, zero, suc, Bool, true, false, not, ◌&&◌, ◌||◌, List, [], ◌∷◌, ◌++◌, Option, none, some, String,
  if◌then◌else◌, ◌is◌, ℤ,
}

-- What the backend is started with, and what its steps meet; none for an error.
pub record Answers : Type 0 where
  pub st_key : String
  pub st_home : String
  pub debug : Bool
  pub hostname_override : String
  pub api_key : Option String
  pub status : ℕ → Option String  -- the `MyID` of each attempt
  pub lock_ok : Bool
  pub db_ok : Bool
  pub hostname : String  -- of `os.Hostname`
  pub saved_name : Option String
  pub discovery_ok : Bool
  pub cert_ok : Bool
  pub level : ℤ
  pub visible : Bool

pub data Call : Type 0 where
  asks_status : (attempt : ℕ) → Call
  locks_network enables_gui opens_db : Call
  saves_name : (name : String) → Call
  names_device : (id name : String) → Call
  opens_discovery loads_cert : Call
  makes_handlers : (id name : String) → Call
  sets_level : ℤ → Call
  wants_announce : Bool → Call
  schedules_pipeline listens : Call

pub data Ended : Type 0 where
  no_api_key no_status no_lock no_db no_discovery no_home no_cert serves : Ended

-- The loop over the attempts, with those that are left after this one.
unfoldable pub await_status : ℕ → ℕ → (ℕ → Option String) → List Call × Option String
await_status zero attempt status = (asks_status attempt ∷ [], status attempt)
await_status (suc left) attempt status =
    let (calls, id) = await_status left (suc attempt) status in
    elim (status attempt) [
      | some id' ↦ (asks_status attempt ∷ [], some id')
      | none ↦ (asks_status attempt ∷ calls, id)
    ]

-- The name of the device, and whether it is derived anew.
unfoldable pub device_name : Answers → String × Bool
device_name a =
    let host = if a.hostname_override is "" then a.hostname else a.hostname_override in
    elim a.saved_name [
      | none ↦ (host, true)
      | some name ↦
          if (name is "") || ((name is "localhost") && not (a.hostname_override is ""))
          then (host, true)
          else (name, false)
    ]

-- From the name on.
unfoldable pub run_named : Answers → String → List Call × Ended
unfolding device_name
run_named a id =
    let (name, anew) = device_name a in
    let named = if anew then saves_name name ∷ names_device id name ∷ [] else [] in
    if not a.discovery_ok
    then (named ++ (opens_discovery ∷ []), no_discovery)
    else if a.st_home is ""
    then (named ++ (opens_discovery ∷ []), no_home)
    else if not a.cert_ok
    then (named ++ (opens_discovery ∷ loads_cert ∷ []), no_cert)
    else (
      named
          ++ (opens_discovery
              ∷ loads_cert
              ∷ makes_handlers id name
              ∷ sets_level a.level
              ∷ wants_announce a.visible
              ∷ schedules_pipeline
              ∷ listens
              ∷ []),
      serves,
    )

-- From Syncthing's answer on.
unfoldable pub run_with : Answers → String → List Call × Ended
unfolding run_named
run_with a id =
    let (calls, ended) = run_named a id in
    let gui = if a.debug then enables_gui ∷ [] else [] in
    if not a.lock_ok
    then (locks_network ∷ [], no_lock)
    else if not a.db_ok
    then (locks_network ∷ (gui ++ (opens_db ∷ [])), no_db)
    else (locks_network ∷ (gui ++ (opens_db ∷ calls)), ended)

unfoldable pub has_key : Answers → Bool
has_key a = not (a.st_key is "") || (elim a.api_key [ none ↦ false | some _ ↦ true ])

unfoldable pub on_status : Answers → List Call × Option String → List Call × Ended
unfolding run_with
on_status a (asked, none) = (asked, no_status)
on_status a (asked, some id) = (asked ++ (run_with a id).0, (run_with a id).1)

-- 30 attempts, two seconds apart.
unfoldable pub backend_run : Answers → List Call × Ended
unfolding has_key await_status on_status
backend_run a =
    if not (has_key a) then ([], no_api_key) else on_status a (await_status 29 1 a.status)
