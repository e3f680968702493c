-- ===== src/Base/Maps.antt =====
-- Go maps with text keys, as association lists: a write puts one binding in front of what is left
-- of the others, so a key is bound at most once.
use Prim.Native.String.{String}
use mathlib.Core.Bool.{Bool, true, false}
use mathlib.Core.List.{List, [], ◌∷◌}
use mathlib.Core.Option.{Option, none, some}
use mathlib.Core.Path.{◌≡◌}
use native.Mathlib.Omega.{arith}
use we_sync.Base.Tests.{if◌then◌else◌}
use we_sync.Base.Texts.{◌is◌, is_iff, is_self}

abbrev pub Map {ℓ} : Type ℓ → Type ℓ
Map V = List (String × V)

module _ {ℓ} {V : Type ℓ} where
  unfoldable pub lookup : String → Map V → Option V
  lookup k [] = none
  lookup k ((j, v) ∷ m) = if j is k then some v else lookup k m

  unfoldable pub delete : String → Map V → Map V
  delete k [] = []
  delete k ((j, v) ∷ m) = if j is k then delete k m else (j, v) ∷ delete k m

  unfoldable pub insert : String → V → Map V → Map V
  unfolding delete
  insert k v m = (k, v) ∷ delete k m

  -- `_, ok := m[k]`.
  abbrev pub is_some : Option V → Bool
  is_some none = false
  is_some (some v) = true

  -- `m[k]`, with the zero value for a missing key.
  abbrev pub or_else : V → Option V → V
  or_else d none = d
  or_else d (some v) = v

  pub lookup-delete :
      (j k : String) (m : Map V) → lookup j (delete k m) ≡ (if k is j then none else lookup j m)
  unfolding lookup delete
  lookup-delete j k [] = ground arith
  lookup-delete j k ((i, v) ∷ m) =
      ground (arith, is_iff k j, is_iff i k, is_iff i j, lookup-delete j k m)

  pub lookup-insert :
      (j k : String) (v : V) (m : Map V)
      → lookup j (insert k v m) ≡ (if k is j then some v else lookup j m)
  unfolding lookup insert
  lookup-insert j k v m = ground (arith, lookup-delete j k m)

  pub lookup-insert_self : (k : String) (v : V) (m : Map V) → lookup k (insert k v m) ≡ some v
  lookup-insert_self k v m = ground (arith, lookup-insert k k v m, is_self k)

-- No key is bound twice.
abbrev pub IsUnique {ℓ} : {V : Type ℓ} → Map V → Type ℓ
IsUnique [] = Unit
IsUnique ((k, v) ∷ m) = (lookup k m ≡ none) × IsUnique m

module _ {ℓ} {V : Type ℓ} where
  pub delete-IsUnique : (k : String) (m : Map V) → IsUnique m → IsUnique (delete k m)
  unfolding delete
  delete-IsUnique k [] u = tt
  delete-IsUnique k ((j, v) ∷ m) u = ground (arith, delete-IsUnique k m u.1, lookup-delete j k m)

  pub insert-IsUnique : (k : String) (v : V) (m : Map V) → IsUnique m → IsUnique (insert k v m)
  unfolding insert
  insert-IsUnique k v m u = (ground (arith, lookup-delete k k m, is_self k), delete-IsUnique k m u)

-- A set of texts, as the `map[string]bool` that holds only `true`.
unfoldable pub has : String → Map Bool → Bool
unfolding lookup
has k m = or_else false (lookup k m)

pub has-insert :
    (j k : String) (v : Bool) (m : Map Bool)
    → has j (insert k v m) ≡ (if k is j then v else has j m)
unfolding has
has-insert j k v m = ground (arith, lookup-insert j k v m)

pub has-delete :
    (j k : String) (m : Map Bool) → has j (delete k m) ≡ (if k is j then false else has j m)
unfolding has
has-delete j k m = ground (arith, lookup-delete j k m)
