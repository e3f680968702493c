-- ===== src/Base/Texts.antt =====
-- Texts, compared as wholes by `is`.
use Prim.Native.Char.{code}
use Prim.Native.Nat.{ℕ, zero, suc}
use Prim.Native.String.{String, ◌++◌}
use mathlib.Core.Bool.{Bool, true, false, ◌&&◌}
use mathlib.Core.List.{List, [], ◌∷◌, map}
use mathlib.Core.Logic.{◌↔◌}
use mathlib.Core.Path.{◌≡◌, refl}
use native.Mathlib.Omega.{arith}
use we_sync.Base.Tests.{◌==◌}
use text.Mathlib.Text.{◌==◌ as text_eq}
use text.Mathlib.TextEquality.{eq_iff}
use text.Mathlib.TextPositions.{eq_refl}

infix 50 ◌is◌
unfoldable pub ◌is◌ : String → String → Bool
s is t = text_eq s t

pub is_iff : (s t : String) → ((s is t) ≡ true) ↔ (s ≡ t)
unfolding ◌is◌
is_iff s t = eq_iff s t

pub is_self : (s : String) → (s is s) ≡ true
unfolding ◌is◌
is_self s = eq_refl s

-- The code points of a text, in order.
abbrev pub codes : String → List ℕ
codes String.[] = []
codes (String.◌∷◌ c s) = code c ∷ codes s

abbrev same_codes : List ℕ → List ℕ → Bool
same_codes [] [] = true
same_codes (a ∷ s) (b ∷ t) = (a == b) && same_codes s t
same_codes _ _ = false

-- `strings.EqualFold`: equality under a case folding of the code points. The folding is the Unicode
-- table of Go's library, which sends each code point to one of its orbit.
unfoldable pub equal_fold : (ℕ → ℕ) → String → String → Bool
equal_fold fold s t = same_codes (map fold (codes s)) (map fold (codes t))

same_codes_self : (s : List ℕ) → same_codes s s ≡ true
same_codes_self [] = refl
same_codes_self (a ∷ s) = ground (arith, same_codes_self s)

pub equal_fold_self : (fold : ℕ → ℕ) (s : String) → equal_fold fold s s ≡ true
unfolding equal_fold
equal_fold_self fold s = same_codes_self (map fold (codes s))

-- `strings.Join(parts, ", ")`, and the join of two texts.
abbrev pub text_append : String → String → String
text_append s t = s ++ t

abbrev pub join_comma : List String → String
join_comma [] = ""
join_comma (s ∷ []) = s
join_comma (s ∷ t ∷ ts) = s ++ ", " ++ join_comma (t ∷ ts)

-- The first `n` characters: Go's `s[:n]` where the text is that long, and ASCII as an ID is.
abbrev pub prefix : ℕ → String → String
prefix zero s = String.[]
prefix (suc n) String.[] = String.[]
prefix (suc n) (String.◌∷◌ c s) = String.◌∷◌ c (prefix n s)
