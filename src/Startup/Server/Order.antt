-- ===== src/Startup/Server/Order.antt =====
-- When the backend comes to listen, and what comes before.
use mathlib.Core.List.{append-nil}
use we_sync.Base.{
  subst, ℕ, zero, suc, Bool, true, false, not, ◌&&◌, ◌||◌, List, [], ◌∷◌, ◌++◌, Option, none, some,
  String, ◌is◌, ◌≡◌, refl, ap, ◌∙◌, arith, Bool-cases, inl, inr, any,
}
use we_sync.Startup.Takeover.{from_to}
use we_sync.Startup.Server.{
  Answers, Call, asks_status, locks_network, enables_gui, opens_db, saves_name, names_device,
  opens_discovery, loads_cert, makes_handlers, sets_level, wants_announce, schedules_pipeline,
  listens, await_status, device_name, run_named, run_with, on_status, has_key, backend_run,
}

abbrev pub is_listening : Call → Bool
is_listening listens = true
is_listening _ = false

abbrev pub answers : Option String → Bool
answers none = false
answers (some _) = true

any-append :
    {A : Type 0} (p : A → Bool) (xs ys : List A) → any p (xs ++ ys) ≡ (any p xs || any p ys)
any-append p [] ys = refl
any-append p (x ∷ xs) ys = ground (arith, any-append p xs ys)

-- The attempts find an answer exactly if one of them has one; and asking is all that they do.
await_status-answers :
    (left i : ℕ) (status : ℕ → Option String)
    → answers (await_status left i status).1 ≡ any (λ j. answers (status j)) (from_to i (suc left))
unfolding await_status
await_status-answers zero i status = ground arith
await_status-answers (suc left) i status = ground (arith, await_status-answers left (suc i) status)

await_status-quiet :
    (left i : ℕ) (status : ℕ → Option String)
    → any is_listening (await_status left i status).0 ≡ false
unfolding await_status
await_status-quiet zero i status = refl
await_status-quiet (suc left) i status = ground (arith, await_status-quiet left (suc i) status)

-- What must hold of the answers after Syncthing's.
abbrev pub is_complete : Answers → Bool
is_complete a = a.lock_ok && a.db_ok && a.discovery_ok && not (a.st_home is "") && a.cert_ok

run_with-listens : (a : Answers) (id : String) → any is_listening (run_with a id).0 ≡ is_complete a
unfolding run_with run_named device_name
run_with-listens a id = ground arith

on_status-listens :
    (a : Answers) (asked : List Call) (found : Option String)
    → any is_listening asked ≡ false
    → any is_listening (on_status a (asked, found)).0 ≡ (answers found && is_complete a)
unfolding on_status
on_status-listens a asked none h = h
on_status-listens a asked (some id) h =
    any-append is_listening asked (run_with a id).0
    ∙ ap (λ x. x || any is_listening (run_with a id).0) h
    ∙ run_with-listens a id

-- The backend comes to listen exactly if it has a key, Syncthing answers one of 30 attempts, the lock to
-- the local network, the database and the discovery are set up without an error, and Syncthing's home
-- is given and has a certificate.
pub backend_run-listens :
    (a : Answers)
    → any is_listening (backend_run a).0
      ≡ (has_key a && (any (λ i. answers (a.status i)) (from_to 1 30) && is_complete a))
unfolding backend_run
backend_run-listens a = elim (Bool-cases (has_key a)) [
  | inr e ↦ rw (e, backend_run) refl
  | inl e ↦
      rw (e, backend_run)
        (on_status-listens a (await_status 29 1 a.status).0 (await_status 29 1 a.status).1
            (await_status-quiet 29 1 a.status)
          ∙ ap (λ x. x && is_complete a) (await_status-answers 29 1 a.status))
]

-- Syncthing is locked to the local network before anything is set, stored or opened, and the certificate
-- is loaded before handlers are made or anything listens. The flags say what came before.
abbrev pub is_orderly : Bool → Bool → List Call → Bool
is_orderly locked loaded [] = true
is_orderly locked loaded (asks_status i ∷ cs) = is_orderly locked loaded cs
is_orderly locked loaded (locks_network ∷ cs) = is_orderly true loaded cs
is_orderly locked loaded (loads_cert ∷ cs) = locked && is_orderly locked true cs
is_orderly locked loaded (makes_handlers id name ∷ cs) =
    (locked && loaded) && is_orderly locked loaded cs
is_orderly locked loaded (listens ∷ cs) = (locked && loaded) && is_orderly locked loaded cs
is_orderly locked loaded (enables_gui ∷ cs) = locked && is_orderly locked loaded cs
is_orderly locked loaded (opens_db ∷ cs) = locked && is_orderly locked loaded cs
is_orderly locked loaded (saves_name name ∷ cs) = locked && is_orderly locked loaded cs
is_orderly locked loaded (names_device id name ∷ cs) = locked && is_orderly locked loaded cs
is_orderly locked loaded (opens_discovery ∷ cs) = locked && is_orderly locked loaded cs
is_orderly locked loaded (sets_level l ∷ cs) = locked && is_orderly locked loaded cs
is_orderly locked loaded (wants_announce v ∷ cs) = locked && is_orderly locked loaded cs
is_orderly locked loaded (schedules_pipeline ∷ cs) = locked && is_orderly locked loaded cs

-- Asking for the status does no more than that.
await_status-orderly :
    (left i : ℕ) (status : ℕ → Option String) (cs : List Call)
    → is_orderly false false ((await_status left i status).0 ++ cs) ≡ is_orderly false false cs
unfolding await_status
await_status-orderly zero i status cs = refl
await_status-orderly (suc left) i status cs =
    ground (arith, await_status-orderly left (suc i) status cs)

run_with-orderly : (a : Answers) (id : String) → is_orderly false false (run_with a id).0 ≡ true
unfolding run_with run_named device_name
run_with-orderly a id = ground arith

-- Whatever the steps meet, before Syncthing is locked to the local network the backend only asks for
-- its status, and it makes no handlers and listens nowhere before the certificate is loaded.
pub backend_run-orderly : (a : Answers) → is_orderly false false (backend_run a).0 ≡ true
unfolding backend_run
backend_run-orderly a = elim (Bool-cases (has_key a)) [
  | inr e ↦ rw (e, backend_run) refl
  | inl e ↦ rw (e, backend_run) (by_answer (await_status 29 1 a.status).1)
]
  where
    asked : List Call
    asked = (await_status 29 1 a.status).0

    by_answer : (o : Option String) → is_orderly false false (on_status a (asked, o)).0 ≡ true
    by_answer none =
        unfold on_status in
        subst (λ l. is_orderly false false l ≡ true) (append-nil asked)
          (await_status-orderly 29 1 a.status [])
    by_answer (some id) =
        unfold on_status in
        await_status-orderly 29 1 a.status (run_with a id).0 ∙ run_with-orderly a id
