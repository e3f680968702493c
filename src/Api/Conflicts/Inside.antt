-- ===== src/Api/Conflicts/Inside.antt =====
-- That no file outside the folder is removed.
use mathlib.Core.List.{append_assoc}
use we_sync.Base.{
  Bool, true, false, not, ◌&&◌, ◌||◌, List, [], ◌∷◌, ◌++◌, some, String, ◌is◌, is_empty, ◌≡◌, refl,
  ◌∙◌, subst, codes, ◌==◌, arith, eqb→eq, Bool-cases, inl, inr, ◌⊎◌,
}
use we_sync.Api.Conflicts.{
  Bytes, starts_with, same_bytes, after_prefix, contains, marker, Paths, FolderPath, folder_by_id,
  checked, folder_conflict_delete,
}

starts_with→append : (s p : Bytes) → starts_with s p ≡ true → s ≡ p ++ after_prefix s p
starts_with→append s [] h = refl
starts_with→append [] (d ∷ p) h = ground (arith, h)
starts_with→append (c ∷ s) (d ∷ p) h = ground (arith, h, starts_with→append s p, eqb→eq c d)

same_bytes→eq : (s p : Bytes) → same_bytes s p ≡ true → s ≡ p
same_bytes→eq [] [] h = refl
same_bytes→eq [] (d ∷ p) h = ground (arith, h)
same_bytes→eq (c ∷ s) [] h = ground (arith, h)
same_bytes→eq (c ∷ s) (d ∷ p) h = ground (arith, h, same_bytes→eq s p, eqb→eq c d)

-- The folder's own path, or one below it.
abbrev pub IsInside : Bytes → Bytes → Type 0
IsInside base target = (target ≡ base) ⊎ ((rest : Bytes) × (target ≡ base ++ (47 ∷ rest)))

-- A path from the root, and an element `..` of a path.
abbrev pub is_rooted : Bytes → Bool
is_rooted [] = false
is_rooted (c ∷ s) = c == 47

abbrev pub goes_up : Bytes → Bool
goes_up [] = false
goes_up (c ∷ s) =
    let later = goes_up s in
    same_bytes (c ∷ s) (codes "/..") || starts_with (c ∷ s) (codes "/../") || later

-- What `path/filepath` documents: cleaning or joining keeps a path from the root one, and a cleaned path
-- from the root has no element `..`.
pub record IsDocumented (os : Paths) : Type 0 where
  pub join_rooted : (p q : Bytes) → is_rooted p ≡ true → is_rooted (os.join p q) ≡ true
  pub clean_rooted : (p : Bytes) → is_rooted p ≡ true → is_rooted (os.clean p) ≡ true
  pub clean_stays : (p : Bytes) → is_rooted p ≡ true → goes_up (os.clean p) ≡ false

guard-IsInside :
    (base target : Bytes)
    → (not (same_bytes target base) && not (starts_with target (base ++ (47 ∷ [])))) ≡ false
    → IsInside base target
guard-IsInside base target h = elim (Bool-cases (same_bytes target base)) [
  | inl e ↦ inl (same_bytes→eq target base e)
  | inr e ↦ inr (
    after_prefix target (base ++ (47 ∷ [])),
    starts_with→append target (base ++ (47 ∷ []))
          (below (same_bytes target base) (starts_with target (base ++ (47 ∷ []))) h e)
        ∙ append_assoc base (47 ∷ []) (after_prefix target (base ++ (47 ∷ []))),
  )
]
  where
    below : (x y : Bool) → (not x && not y) ≡ false → x ≡ false → y ≡ true
    below x y h e = ground (arith, h, e)

module _ (os : Paths) (removes : Bool) where
  -- What the checks let through.
  checked-lawful :
      (base target found : Bytes)
      → (checked os removes base target).0 ≡ some found
      → (target ≡ found) × (IsInside base target × (contains marker (os.last_of target) ≡ true))
  unfolding checked
  checked-lawful base target found =
      elim (Bool-cases
        (not (same_bytes target base) && not (starts_with target (base ++ (47 ∷ []))))) [
          | inl e ↦ rw (e, checked) (λ h. ground (arith, h))
          | inr e ↦ elim (Bool-cases (contains marker (os.last_of target))) [
            | inr f ↦ rw (e, f, checked) (λ h. ground (arith, h))
            | inl f ↦ elim (Bool-cases removes) [
              | inr g ↦ rw (e, f, g, checked) (λ h. ground (arith, h))
              | inl g ↦
                  rw (e, f, g, checked)
                    (λ h. (ground (arith, h), (guard-IsInside base target e, refl)))
            ]
          ]
        ]

-- A file that a request may remove from a folder: at its cleaned path or below it, on a path that does
-- not go up, and with the marker of a conflict copy in its name.
abbrev pub IsLawful : Paths → Bytes → Bytes → Type 0
IsLawful os folder target =
    IsInside (os.clean folder) target
    × (goes_up target ≡ false)
    × (contains marker (os.last_of target) ≡ true)

removed_in :
    (os : Paths) (removes : Bool) (folder path target : Bytes)
    → IsDocumented os
    → is_rooted folder ≡ true
    → (checked os removes (os.clean folder) (os.clean (os.join (os.clean folder) path))).0
      ≡ some target
    → IsLawful os folder target
removed_in os removes folder path target doc root h =
    let base = os.clean folder in
    let joined = os.join base path in
    let (same, (inside, marked)) = checked-lawful os removes base (os.clean joined) target h in
    (
      subst (IsInside base) same inside,
      subst (λ x. goes_up x ≡ false) same
          (doc.clean_stays joined (doc.join_rooted base path (doc.clean_rooted folder root))),
      subst (λ x. contains marker (os.last_of x) ≡ true) same marked,
    )

-- Whatever path a request names, if the paths of the folders start at the root: the file that it removes
-- is in the folder with the requested ID, at its cleaned path or below it on a path without an element
-- `..`, and has the marker of a conflict copy in its name.
pub removed-lawful :
    (os : Paths) (folders : List FolderPath) (removes : Bool) (id : String)
    (path folder target : Bytes)
    → IsDocumented os
    → folder_by_id folders id ≡ some folder
    → is_rooted folder ≡ true
    → (folder_conflict_delete os folders removes id path).0 ≡ some target
    → IsInside (os.clean folder) target
      × (goes_up target ≡ false)
      × (contains marker (os.last_of target) ≡ true)
unfolding folder_conflict_delete
removed-lawful os folders removes id path folder target doc found root =
    elim (Bool-cases ((id is "") || is_empty path)) [
      | inl e ↦ rw (e, folder_conflict_delete) (λ h. ground (arith, h))
      | inr e ↦
          rw (e, found, folder_conflict_delete) (removed_in os removes folder path target doc root)
    ]
