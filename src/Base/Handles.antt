-- ===== src/Base/Handles.antt =====
-- Sets of handles, as lists of numbers.
use Prim.Native.Nat.{ℕ}
use mathlib.Core.Bool.{Bool, true, false, not, ◌&&◌, ◌||◌}
use mathlib.Core.List.{List, [], ◌∷◌, ◌++◌}
use mathlib.Core.Path.{◌≡◌, refl}
use native.Mathlib.Omega.{arith}
use we_sync.Base.Tests.{◌==◌, if◌then◌else◌}

abbrev pub holds : ℕ → List ℕ → Bool
holds n [] = false
holds n (m ∷ ms) = (m == n) || holds n ms

-- Every handle but `n`.
abbrev pub remove : ℕ → List ℕ → List ℕ
remove n [] = []
remove n (m ∷ ms) = let rest = remove n ms in if m == n then rest else m ∷ rest

abbrev pub is_empty {ℓ} : {A : Type ℓ} → List A → Bool
is_empty [] = true
is_empty (x ∷ xs) = false

pub holds-remove : (m n : ℕ) (xs : List ℕ) → holds m (remove n xs) ≡ (not (m == n) && holds m xs)
holds-remove m n [] = ground arith
holds-remove m n (x ∷ xs) = ground (arith, holds-remove m n xs)

pub holds-append : (m : ℕ) (xs ys : List ℕ) → holds m (xs ++ ys) ≡ (holds m xs || holds m ys)
holds-append m [] ys = refl
holds-append m (x ∷ xs) ys = ground (arith, holds-append m xs ys)

pub holds-nonempty : (m : ℕ) (xs : List ℕ) → holds m xs ≡ true → is_empty xs ≡ false
holds-nonempty m [] h = ground (arith, h)
holds-nonempty m (x ∷ xs) h = refl
