-- ===== src/Api/Conflicts/Original.antt =====
-- The name of a conflict copy leads back to the name of the file.
use mathlib.Core.List.{append-nil}
use we_sync.Base.{
  Bool, true, false, not, ◌&&◌, [], ◌∷◌, ◌++◌, none, some, if◌then◌else◌, ◌==◌, any, ◌≡◌, refl, sym,
  arith, eqb→eq, eqb_self,
}
use we_sync.Api.Conflicts.{
  Bytes, starts_with, after_prefix, cut, contains, from_last_dot, sync_conflict, marker,
  conflict_original,
}

-- No byte is a dot.
abbrev pub has_dot : Bytes → Bool
has_dot s = any (λ c. c == 46) s

-- A text without a dot is no prefix across a dot.
starts_with-dot :
    (b p t : Bytes) → has_dot p ≡ false → starts_with (b ++ (46 ∷ t)) p ≡ starts_with b p
starts_with-dot b [] t h = ground arith
starts_with-dot [] (d ∷ p) t h = ground (arith, h, eqb→eq 46 d)
starts_with-dot (c ∷ b) (d ∷ p) t h = ground (arith, h, starts_with-dot b p t)

starts_with_self : (p t : Bytes) → starts_with (p ++ t) p ≡ true
starts_with_self [] t = ground arith
starts_with_self (c ∷ p) t = ground (arith, eqb_self c, starts_with_self p t)

after_prefix_self : (p t : Bytes) → after_prefix (p ++ t) p ≡ t
after_prefix_self [] t = ground arith
after_prefix_self (c ∷ p) t = after_prefix_self p t

-- The first marker of a name is where it follows a text that has none: the dot stands only at its
-- start, so none begins earlier and reaches over it.
cut-marker :
    (p base t : Bytes)
    → has_dot p ≡ false
    → contains (46 ∷ p) base ≡ false
    → cut (46 ∷ p) (base ++ ((46 ∷ p) ++ t)) ≡ some (base, t)
unfolding cut contains
cut-marker p [] t d h = rw (starts_with_self p t, after_prefix_self p t) refl
cut-marker p (c ∷ base) t d h =
    rw
      (
        starts_with-dot base p (p ++ t) d,
        absent (starts_with (c ∷ base) (46 ∷ p)) (contains (46 ∷ p) base) h,
        cut-marker p base t d (later (starts_with (c ∷ base) (46 ∷ p)) (contains (46 ∷ p) base) h),
      )
      refl
  where
    absent : (x y : Bool) → (if x then true else y) ≡ false → x ≡ false
    absent x y h = ground (arith, h)

    later : (x y : Bool) → (if x then true else y) ≡ false → y ≡ false
    later x y h = ground (arith, h)

from_last_dot-none : (s : Bytes) → has_dot s ≡ false → from_last_dot s ≡ none
unfolding from_last_dot
from_last_dot-none [] h = refl
from_last_dot-none (c ∷ s) h = ground (arith, h, from_last_dot-none s)

from_last_dot-some :
    (s e : Bytes) → has_dot e ≡ false → from_last_dot (s ++ (46 ∷ e)) ≡ some (46 ∷ e)
unfolding from_last_dot
from_last_dot-some [] e h = ground (arith, from_last_dot-none e h)
from_last_dot-some (c ∷ s) e h = ground (arith, from_last_dot-some s e h)

-- The extension of a file: nothing, or a dot and no other.
abbrev pub is_extension : Bytes → Bool
is_extension [] = true
is_extension (c ∷ e) = (c == 46) && not (has_dot e)

-- For a conflict copy of a file, which Syncthing names by putting the marker and a stamp without a dot
-- between the base and the extension, `conflictOriginal` gives back the name of the file, if the base
-- has no marker itself.
pub conflict_original-copy :
    (base stamp ext : Bytes)
    → contains marker base ≡ false
    → has_dot stamp ≡ false
    → is_extension ext ≡ true
    → conflict_original (base ++ (marker ++ (stamp ++ ext))) ≡ base ++ ext
unfolding conflict_original
conflict_original-copy base stamp [] h d x =
    rw
      (
        cut-marker sync_conflict base (stamp ++ []) refl h,
        append-nil stamp,
        from_last_dot-none stamp d,
        conflict_original,
      )
      (sym (append-nil base))
conflict_original-copy base stamp (c ∷ e) h d x =
    rw
      (
        eqb→eq c 46 (dot_of (c == 46) (has_dot e) x),
        cut-marker sync_conflict base (stamp ++ (46 ∷ e)) refl h,
        from_last_dot-some stamp e (rest_of (c == 46) (has_dot e) x),
        conflict_original,
      )
      refl
  where
    dot_of : (x y : Bool) → (x && not y) ≡ true → x ≡ true
    dot_of x y h = ground (arith, h)

    rest_of : (x y : Bool) → (x && not y) ≡ true → y ≡ false
    rest_of x y h = ground (arith, h)
