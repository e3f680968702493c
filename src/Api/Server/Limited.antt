-- ===== src/Api/Server/Limited.antt =====
-- How many requests on pairing reach a handler.
use we_sync.Base.{
  ℕ, suc, ◌+◌, ◌≤◌, Bool, true, false, not, ◌&&◌, List, [], ◌∷◌, Option, String, if◌then◌else◌,
  ◌is◌, ◌≡◌, refl, arith, Bool-cases, inl, inr, lookup,
}
use we_sync.RateLimit.{Limiter, allow, new}
use we_sync.RateLimit.Alone.{answers_of, IsOrdered}
use we_sync.RateLimit.Window.{passed, Until, answers_of-passed}
use we_sync.Api.Server.{
  Request, Reply, reaches, preflight, too_many_requests, has_prefix, minute, pair_limiter, route,
  client_ip, cors_origin, rate_limit, serve, serve_all,
}

-- A request that the limiter is asked about.
abbrev pub is_limited : Request → Bool
is_limited r = not (r.method is "OPTIONS") && has_prefix r.path "/api/pair"

abbrev pub is_handled : Reply → Bool
is_handled p = elim p.outcome [
  | preflight ↦ false
  | too_many_requests ↦ false
  | reaches pattern limit ↦ true
]

module _ (hostname : String → Option String) (split_host : String → Option String) where
  -- How many requests on pairing of the client `k` reach a handler.
  abbrev pub handled_of : String → List (Request × ℕ) → List Reply → ℕ
  handled_of k [] ps = 0
  handled_of k (q ∷ rs) [] = 0
  handled_of k ((r, t) ∷ rs) (p ∷ ps) =
      let rest = handled_of k rs ps in
      if is_limited r && (client_ip hostname split_host r is k) && is_handled p
      then suc rest
      else rest

  -- What the limiter is asked.
  abbrev calls_of : List (Request × ℕ) → List (String × ℕ)
  calls_of [] = []
  calls_of ((r, t) ∷ rs) =
      let rest = calls_of rs in
      if is_limited r then (client_ip hostname split_host r, t) ∷ rest else rest

  -- The requests come in the order of the clock, from `t` on, and none after `u`.
  abbrev pub IsWithin : ℕ → ℕ → List (Request × ℕ) → Type 0
  IsWithin t u [] = Unit
  IsWithin t u ((r, s) ∷ rs) = ((t ≤ s) × (s ≤ u)) × IsWithin s u rs

  calls_of-Until : (t u : ℕ) (rs : List (Request × ℕ)) → IsWithin t u rs → Until u (calls_of rs)
  calls_of-Until t u [] v = tt
  calls_of-Until t u ((r, s) ∷ rs) ((a, b), v) = elim (Bool-cases (is_limited r)) [
    | inl e ↦ rw e (b, calls_of-Until s u rs v)
    | inr e ↦ rw e (calls_of-Until s u rs v)
  ]

  calls_of-IsOrdered :
      (t s u : ℕ) (rs : List (Request × ℕ)) → t ≤ s → IsWithin s u rs → IsOrdered t (calls_of rs)
  calls_of-IsOrdered t s u [] q v = tt
  calls_of-IsOrdered t s u ((r, w) ∷ rs) q ((a, b), v) = elim (Bool-cases (is_limited r)) [
    | inl e ↦ rw e (omega (arith, q, a), calls_of-IsOrdered w w u rs (omega arith) v)
    | inr e ↦ rw e (calls_of-IsOrdered t w u rs (omega (arith, q, a)) v)
  ]

  route-is_handled :
      (o : Option String) (path : String)
      → is_handled (record { allow_origin = o; outcome = route path }) ≡ true
  unfolding route
  route-is_handled o path = ground arith

  -- What becomes of a request that the limiter is not asked about, and of one that it is.
  serve-free :
      (l : Limiter) (r : Request) (t : ℕ)
      → is_limited r ≡ false
      → (serve hostname split_host l r t).0 ≡ l
  unfolding serve rate_limit
  serve-free l r t h = ground (arith, h)

  serve-limited :
      (l : Limiter) (r : Request) (t : ℕ)
      → is_limited r ≡ true
      → ((serve hostname split_host l r t).0 ≡ (allow l (client_ip hostname split_host r) t).0)
        × (is_handled (serve hostname split_host l r t).1
            ≡ (allow l (client_ip hostname split_host r) t).1)
  unfolding serve rate_limit
  serve-limited l r t h =
      let m = quiet_of (r.method is "OPTIONS") _ h in
      let p = prefix_of (r.method is "OPTIONS") (has_prefix r.path "/api/pair") h in
      elim (Bool-cases (allow l (client_ip hostname split_host r) t).1) [
        | inl o ↦
            rw (m, p, o, serve, rate_limit)
              (refl, route-is_handled (cors_origin hostname split_host r) r.path)
        | inr o ↦ rw (m, p, o, serve, rate_limit) (refl, refl)
      ]
    where
      quiet_of : (x y : Bool) → (not x && y) ≡ true → x ≡ false
      quiet_of x y h = ground (arith, h)

      prefix_of : (x y : Bool) → (not x && y) ≡ true → y ≡ true
      prefix_of x y h = ground (arith, h)

  handled_of-passed :
      (k : String) (l : Limiter) (rs : List (Request × ℕ))
      → handled_of k rs (serve_all hostname split_host l rs) ≡ passed (answers_of k l (calls_of rs))
  unfolding serve_all answers_of
  handled_of-passed k l [] = refl
  handled_of-passed k l ((r, t) ∷ rs) = elim (Bool-cases (is_limited r)) [
    | inl e ↦
        let (p, q) = serve-limited l r t e in
        rw (e, p, q)
          (counted (client_ip hostname split_host r is k)
            (allow l (client_ip hostname split_host r) t).1 _ _
            (handled_of-passed k (allow l (client_ip hostname split_host r) t).0 rs))
    | inr e ↦ rw (e, serve-free l r t e) (handled_of-passed k l rs)
  ]
    where
      counted :
          (mine ok : Bool) (n : ℕ) (rest : List Bool)
          → n ≡ passed rest
          → (if mine && ok then suc n else n) ≡ passed (if mine then ok ∷ rest else rest)
      counted true true n rest h = ground (arith, h)
      counted true false n rest h = h
      counted false ok n rest h = h

-- Requests to the local API that come in the order of the clock, of which the first is one on pairing
-- of the client `k`: until a minute after it, at most 20 requests on pairing of that client reach a
-- handler, whatever other requests and clients come between.
pub serve_all-limited :
    (hostname split_host : String → Option String) (r : Request) (t : ℕ) (rs : List (Request × ℕ))
    → is_limited r ≡ true
    → IsWithin hostname split_host t (t + minute) rs
    → handled_of hostname split_host
        (client_ip hostname split_host r)
        ((r, t) ∷ rs)
        (serve_all hostname split_host pair_limiter ((r, t) ∷ rs))
      ≤ 20
unfolding pair_limiter new lookup
serve_all-limited hostname split_host r t rs h v =
    let k = client_ip hostname split_host r in
    rw (handled_of-passed hostname split_host k pair_limiter ((r, t) ∷ rs), h)
      (answers_of-passed k t pair_limiter (calls_of hostname split_host rs) tt refl
        (calls_of-IsOrdered hostname split_host t t (t + minute) rs (omega arith) v)
        (calls_of-Until hostname split_host t (t + minute) rs v))
