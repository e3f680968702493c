-- ===== src/Startup/Takeover.antt =====
-- When a backend starts next to another.
use we_sync.Base.{
  ℕ, zero, suc, Bool, true, false, not, Option, none, some, String, ◌is◌, ◌≡◌, refl, arith,
  Bool-cases, inl, inr, ◌&&◌, any, List, [], ◌∷◌,
}
use we_sync.Startup.{await_free, reconcile_existing_backend}

-- The numbers from `i` on, as many as `n`.
abbrev pub from_to : ℕ → ℕ → List ℕ
from_to i zero = []
from_to i (suc n) = i ∷ from_to (suc i) n

await_free-any : (n i : ℕ) (is_free : ℕ → Bool) → await_free n i is_free ≡ any is_free (from_to i n)
unfolding await_free
await_free-any zero i is_free = refl
await_free-any (suc n) i is_free = ground (arith, await_free-any n (suc i) is_free)

-- A backend starts exactly if none answers on the port, or if the one that answers is of another build
-- and one of 100 tries finds the port free; and it asks the other to exit exactly if that is of another
-- build.
pub reconcile_existing_backend_lem :
    (running : Option String) (build : String) (is_free : ℕ → Bool)
    → reconcile_existing_backend running build is_free ≡ (elim running [
      | none ↦ (true, false)
      | some other ↦ (not (other is build) && any is_free (from_to 0 100), not (other is build))
    ])
unfolding reconcile_existing_backend
reconcile_existing_backend_lem none build is_free = refl
reconcile_existing_backend_lem (some other) build is_free = elim (Bool-cases (other is build)) [
  | inl e ↦ rw (e, reconcile_existing_backend) refl
  | inr e ↦ rw (e, reconcile_existing_backend, await_free-any 100 0 is_free) refl
]
