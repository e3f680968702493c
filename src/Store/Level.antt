-- ===== src/Store/Level.antt =====
-- internal/api/handlers.go: the requests `Connectivity` and `PowerEvents`. `writes` says whether the
-- database takes a write.
use we_sync.Base.{
  ℕ, Bool, true, false, not, ◌&&◌, ◌||◌, Option, none, some, if◌then◌else◌, ℤ, pos, is_pos,
  is_below, ◌≡◌, refl, ap, arith, Bool-cases, inl, inr, ◌⊎◌,
}
use we_sync.Api.Pairing.{Status, no_content, bad_request, bad_gateway, server_error}
use we_sync.Store.{Settings, get_connectivity_level, set_connectivity_level}

-- The limit of `PowerEvents`, none if the query has no number, and the rows that
-- `ListPowerEvents` asks for.
unfoldable pub events_limit : Option ℤ → ℤ
events_limit none = pos 50
events_limit (some v) = if is_pos v then v else pos 50

unfoldable pub rows_limit : ℕ → ℤ → ℤ
rows_limit max_events limit =
    if not (is_pos limit) || is_below (pos max_events) limit then pos max_events else limit

-- The PUT of `Connectivity`; `applies` is the outcome of the call to Syncthing.
unfoldable pub put_connectivity : Bool → Bool → Option ℤ → Settings → Settings × Status
unfolding set_connectivity_level
put_connectivity writes applies none r = (r, bad_request)
put_connectivity writes applies (some level) r =
    if not (is_pos level) || is_below (pos 3) level
    then (r, bad_request)
    else (if not writes
        then (r, server_error)
        else (set_connectivity_level level r, if applies then no_content else bad_gateway))

-- A PUT of a connectivity level is refused and changes nothing unless the level is 1, 2 or 3; when
-- the database takes it, GET answers that level, whether or not Syncthing could be told.
pub put_connectivity-get :
    (applies : Bool) (level : ℤ) (r : Settings)
    → ((put_connectivity true applies (some level) r ≡ (r, bad_request))
        × ((is_pos level && not (is_below (pos 3) level)) ≡ false))
      ⊎ (get_connectivity_level (some (put_connectivity true applies (some level) r).0) ≡ level)
unfolding put_connectivity get_connectivity_level set_connectivity_level
put_connectivity-get applies level r =
    elim (Bool-cases (not (is_pos level) || is_below (pos 3) level)) [
      | inl e ↦ inl (rw (e, put_connectivity) refl, ground (arith, e))
      | inr e ↦ inr (rw (e, put_connectivity) (ap (λ t. if t then pos 1 else level) e))
    ]
