-- ===== src/Peerwire/Serve/Silent.antt =====
-- That the wire goes silent when the app leaves the foreground.
use we_sync.Base.{
  ℕ, Bool, true, false, not, ◌&&◌, ◌||◌, List, [], ◌∷◌, String, if◌then◌else◌, ◌is◌, holds, remove,
  is_empty, all, ◌≡◌, refl, arith, Bool-cases, inl, inr, holds-remove, holds-append, eqb→eq,
  eqb_self,
}
use we_sync.RateLimit.{allow}
use we_sync.Peerwire.Serve.{
  Inbound, Served, unavailable, too_many, refused, upgraded, new_inbound, serve_ws, register, leave,
  store, take_all, close_next, Step, serves, registers, leaves, stores, takes, closes, step, run,
}

-- A socket that is read from is in the table, or taken out to be closed.
abbrev IsCovered : Inbound → Type 0
IsCovered h = (m : ℕ) → holds m h.live ≡ true → (holds m h.inbound || holds m h.to_close) ≡ true

-- Whichever way `ServeWS` answers, its hub is the same but for the limiter and the connections that
-- are on their way to the table.
serve_ws_lem {ℓ} :
    (P : Inbound → Type ℓ) (h : Inbound) (n : ℕ) (ip origin : String) (now : ℕ)
    → P h
    → P (record h { conn_limiter = (allow h.conn_limiter ip now).0 })
    → (h.accepting ≡ true
        → P (record h { conn_limiter = (allow h.conn_limiter ip now).0; passed = n ∷ h.passed }))
    → P (serve_ws h n ip origin now).0
unfolding serve_ws
serve_ws_lem P h n ip origin now p q r =
    by_tests h.accepting (allow h.conn_limiter ip now).1 (origin is "") r
  where
    counted : Inbound
    counted = record h { conn_limiter = (allow h.conn_limiter ip now).0 }

    answer : Bool → Bool → Bool → Inbound × Served
    answer accepting ok local =
        if not accepting
        then (h, unavailable)
        else if not ok
        then (counted, too_many)
        else if not local
        then (counted, refused)
        else (record counted { passed = n ∷ h.passed }, upgraded)

    by_tests :
        (accepting ok local : Bool)
        → (accepting ≡ true → P (record counted { passed = n ∷ h.passed }))
        → P (answer accepting ok local).0
    by_tests false ok local r = p
    by_tests true false local r = q
    by_tests true true false r = q
    by_tests true true true r = r refl

close_next-IsCovered : (h : Inbound) → IsCovered h → IsCovered (close_next h)
close_next-IsCovered h v = by_list h.to_close v
  where
    by_list :
        (ns : List ℕ)
        → IsCovered (record h { to_close = ns })
        → IsCovered (close_next (record h { to_close = ns }))
    by_list [] v = unfold close_next in v
    by_list (n ∷ ns) v =
        unfold close_next in
        λ m k. ground (arith, v m, k, holds-remove m n h.live, eqb_self n, eqb→eq n m)

step-IsCovered : (h : Inbound) (s : Step) → IsCovered h → IsCovered (step h s)
unfolding step
step-IsCovered h (serves n ip origin now) v = serve_ws_lem IsCovered h n ip origin now v v (λ e. v)
step-IsCovered h (registers n) v = elim (Bool-cases (holds n h.passed)) [
  | inl e ↦ unfold register in rw (e, register) (λ m k. ground (arith, v m, k))
  | inr e ↦ unfold register in rw (e, register) v
]
step-IsCovered h (leaves n) v =
    unfold leave in
    λ m k. ground (arith, v m, k, holds-remove m n h.live, holds-remove m n h.inbound)
step-IsCovered h (stores b) v = unfold store in v
step-IsCovered h takes v =
    unfold take_all in λ m k. ground (arith, v m k, holds-append m h.inbound h.to_close)
step-IsCovered h closes v = close_next-IsCovered h v

run-IsCovered : (h : Inbound) (ss : List Step) → IsCovered h → IsCovered (run h ss)
unfolding run
run-IsCovered h [] v = v
run-IsCovered h (s ∷ ss) v = run-IsCovered (step h s) ss (step-IsCovered h s v)

-- No step lets connections in again.
abbrev pub stays_off : Step → Bool
stays_off (stores v) = not v
stays_off _ = true

abbrev IsOff : Inbound → Type 0
IsOff h = (h.accepting ≡ false) × (is_empty h.passed ≡ true)

abbrev IsSwept : Inbound → Type 0
IsSwept h = IsOff h × (is_empty h.inbound ≡ true)

empty-holds : (n : ℕ) (xs : List ℕ) → is_empty xs ≡ true → holds n xs ≡ false
empty-holds n [] h = refl
empty-holds n (x ∷ xs) h = ground (arith, h)

step-IsOff : (h : Inbound) (s : Step) → stays_off s ≡ true → IsOff h → IsOff (step h s)
unfolding step
step-IsOff h (serves n ip origin now) k v =
    serve_ws_lem IsOff h n ip origin now v v (λ e. ground (arith, e, v.0))
step-IsOff h (registers n) k v = unfold register in rw (empty-holds n h.passed v.1, register) v
step-IsOff h (leaves n) k v = unfold leave in v
step-IsOff h (stores true) k v = ground (arith, k)
step-IsOff h (stores false) k v = unfold store in (refl, v.1)
step-IsOff h takes k v = unfold take_all in v
step-IsOff h closes k v = by_list h.to_close
  where
    by_list : (ns : List ℕ) → IsOff (close_next (record h { to_close = ns }))
    by_list [] = unfold close_next in v
    by_list (n ∷ ns) = unfold close_next in v

step-IsSwept : (h : Inbound) (s : Step) → stays_off s ≡ true → IsSwept h → IsSwept (step h s)
unfolding step
step-IsSwept h (serves n ip origin now) k v =
    serve_ws_lem IsSwept h n ip origin now v v (λ e. ground (arith, e, v.0.0))
step-IsSwept h (registers n) k v = unfold register in rw (empty-holds n h.passed v.0.1, register) v
step-IsSwept h (leaves n) k v = unfold leave in (v.0, left n h.inbound v.1)
  where
    left : (n : ℕ) (xs : List ℕ) → is_empty xs ≡ true → is_empty (remove n xs) ≡ true
    left n [] h = refl
    left n (x ∷ xs) h = ground (arith, h)
step-IsSwept h (stores true) k v = ground (arith, k)
step-IsSwept h (stores false) k v = unfold store in ((refl, v.0.1), v.1)
step-IsSwept h takes k v = unfold take_all in (v.0, refl)
step-IsSwept h closes k v = by_list h.to_close
  where
    by_list : (ns : List ℕ) → IsSwept (close_next (record h { to_close = ns }))
    by_list [] = unfold close_next in v
    by_list (n ∷ ns) = unfold close_next in v

-- A property that every step that stays off keeps, is kept by all of them.
run_off_lem {ℓ} :
    (P : Inbound → Type ℓ)
    → ((h : Inbound) (s : Step) → stays_off s ≡ true → P h → P (step h s))
    → (h : Inbound) (ss : List Step) → all stays_off ss ≡ true
    → P h
    → P (run h ss)
unfolding run
run_off_lem P f h [] k v = v
run_off_lem P f h (s ∷ ss) k v =
    run_off_lem P f (step h s) ss (second_of (stays_off s) _ k)
      (f h s (first_of (stays_off s) _ k) v)
  where
    first_of : (x y : Bool) → (x && y) ≡ true → x ≡ true
    first_of x y h = ground (arith, h)

    second_of : (x y : Bool) → (x && y) ≡ true → y ≡ true
    second_of x y h = ground (arith, h)

-- However the goroutines interleave before it: from a `SetAccepting(false)` at whose store no connection
-- is on its way to the table, if nothing lets connections in again, then once the connections taken
-- from the table are closed no inbound connection is read from, whoever tries to connect meanwhile.
pub run-silent :
    (before between after : List Step)
    → is_empty (run new_inbound before).passed ≡ true
    → all stays_off between ≡ true
    → all stays_off after ≡ true
    → is_empty (run (take_all (run (store (run new_inbound before) false) between)) after).to_close
      ≡ true
    → (run (take_all (run (store (run new_inbound before) false) between)) after).live ≡ []
unfolding store take_all new_inbound step
run-silent before between after p k l closed =
    let h = run new_inbound before in
    let off = run (store h false) between in
    let swept = take_all off in
    let is_off = run_off_lem IsOff step-IsOff (store h false) between k (refl, p) in
    let covered = run-IsCovered new_inbound before (λ m e. ground (arith, e)) in
    let covered_off = run-IsCovered (store h false) between covered in
    let end = run swept after in
    nothing end (run-IsCovered swept after (step-IsCovered off takes covered_off))
      (run_off_lem IsSwept step-IsSwept swept after l (is_off, refl)).1 closed
  where
    nothing :
        (h : Inbound)
        → IsCovered h
        → is_empty h.inbound ≡ true
        → is_empty h.to_close ≡ true
        → h.live ≡ []
    nothing h v i c = by_list h.live (λ m e. v m e)
      where
        by_list :
            (ns : List ℕ)
            → ((m : ℕ) → holds m ns ≡ true → (holds m h.inbound || holds m h.to_close) ≡ true)
            → ns ≡ []
        by_list [] v = refl
        by_list (n ∷ ns) v = ground (
          arith,
          v n (ground (arith, eqb_self n)),
          empty-holds n h.inbound i,
          empty-holds n h.to_close c,
        )
