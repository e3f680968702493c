-- ===== src/Api/Server.antt =====
-- internal/api/server.go: what a request to the local API passes through before a handler, and which
-- handler it reaches. `url.Parse` with `Hostname` and `net.SplitHostPort` are parameters, none for an
-- error.
pub mod Limited
use Prim.Native.Char.{code}
use we_sync.Base.{
  ℕ, Bool, true, false, not, ◌&&◌, ◌||◌, List, [], ◌∷◌, Option, none, some, String, if◌then◌else◌,
  ◌is◌, ◌==◌, any, or_else,
}
use we_sync.RateLimit.{Limiter, allow, new}

-- `strings.HasPrefix` and `strings.HasSuffix`.
abbrev pub has_prefix : String → String → Bool
has_prefix s String.[] = true
has_prefix String.[] (String.◌∷◌ d p) = false
has_prefix (String.◌∷◌ c s) (String.◌∷◌ d p) = (code c == code d) && has_prefix s p

abbrev pub has_suffix : String → String → Bool
has_suffix String.[] p = "" is p
has_suffix (String.◌∷◌ c s) p = (String.◌∷◌ c s is p) || has_suffix s p

pub record Request : Type 0 where
  pub method : String
  pub path : String
  pub origin : String
  pub remote_addr : String

-- Where a request ends: at the answer to an OPTIONS, at the limiter, at the handler of a pattern, or at
-- the files of the user interface. A handler reads no more of the body than the limit.
pub data Outcome : Type 0 where
  preflight too_many_requests : Outcome
  reaches : (pattern : String) (body_limit : ℕ) → Outcome

pub record Reply : Type 0 where
  pub allow_origin : Option String  -- `Access-Control-Allow-Origin`
  pub outcome : Outcome

abbrev pub max_request_body : ℕ
max_request_body = 1048576

abbrev pub minute : ℕ
minute = 60000000000

-- The patterns of `NewServer`; "/" takes every other path.
abbrev pub api_patterns : List String
api_patterns =
    "/api/status" ∷ "/api/exit" ∷ "/api/mode" ∷ "/api/active" ∷ "/api/peers" ∷ "/api/devices"
    ∷ "/api/pair" ∷ "/api/incoming" ∷ "/api/sync" ∷ "/api/name" ∷ "/api/connectivity"
    ∷ "/api/connectivity-status" ∷ "/api/power" ∷ "/api/power/events" ∷ "/api/power/sync-now"
    ∷ "/api/power/status" ∷ "/api/folder/pick" ∷ "/api/folder/share" ∷ "/api/folder/accept"
    ∷ "/api/folder/decline" ∷ "/api/folder/device" ∷ "/api/folder/direction" ∷ "/api/folder/label"
    ∷ "/api/folder/check" ∷ "/api/folder/fix-marker" ∷ "/api/folder/revert" ∷ "/api/folder/pause"
    ∷ "/api/folder" ∷ "/api/folders" ∷ "/api/folders/pending" ∷ "/api/folder/status"
    ∷ "/api/folder/ignores" ∷ "/api/folder/conflicts" ∷ "/api/folder/conflict" ∷ "/api/ws" ∷ []

unfoldable pub route : String → Outcome
route path =
    if any (λ p. p is path) api_patterns
    then reaches path max_request_body
    else reaches "/" max_request_body

-- The limiter of `NewServer`.
unfoldable pub pair_limiter : Limiter
pair_limiter = new 20 minute

module _ (hostname : String → Option String) (split_host : String → Option String) where
  unfoldable pub is_local_origin : String → Bool
  is_local_origin origin = elim (hostname origin) [
    | none ↦ false
    | some h ↦ (h is "localhost") || (h is "127.0.0.1") || (h is "::1") || has_suffix h ".localhost"
  ]

  unfoldable pub client_ip : Request → String
  client_ip r = or_else r.remote_addr (split_host r.remote_addr)

  -- `rateLimitMiddleware`, and the handlers behind it.
  unfoldable pub rate_limit : Limiter → Request → ℕ → Limiter × Outcome
  unfolding client_ip route
  rate_limit l r now =
      let (l', ok) = allow l (client_ip r) now in
      if has_prefix r.path "/api/pair"
      then (if ok then (l', route r.path) else (l', too_many_requests))
      else (l, route r.path)

  -- `corsMiddleware`: the header, and the rest.
  unfoldable pub cors_origin : Request → Option String
  unfolding is_local_origin
  cors_origin r = if not (r.origin is "") && is_local_origin r.origin then some r.origin else none

  unfoldable pub serve : Limiter → Request → ℕ → Limiter × Reply
  unfolding cors_origin rate_limit
  serve l r now =
      let (l', out) = rate_limit l r now in
      if r.method is "OPTIONS"
      then (l, record { allow_origin = cors_origin r; outcome = preflight })
      else (l', record { allow_origin = cors_origin r; outcome = out })

  unfoldable pub serve_all : Limiter → List (Request × ℕ) → List Reply
  unfolding serve
  serve_all l [] = []
  serve_all l ((r, now) ∷ rs) = let (l', reply) = serve l r now in reply ∷ serve_all l' rs
