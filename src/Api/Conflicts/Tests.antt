-- ===== src/Api/Conflicts/Tests.antt =====
-- `filepath.Clean` and `Join` on paths from the root: the elements are taken one by one, and `..` takes
-- the one before away.
use we_sync.Base.{
  ℕ, ◌≡◌, refl, true, false, Bool, ◌||◌, List, [], ◌∷◌, ◌++◌, if◌then◌else◌, ◌==◌, All, codes,
  arith, ◌is◌, Bool-cases, inl, inr, is_empty, none,
}
use we_sync.Api.Conflicts.{
  Bytes, same_bytes, marker, contains, Paths, FolderPath, folder_conflict_delete, checked,
}
use we_sync.Api.Conflicts.Inside.{IsInside, IsDocumented, is_rooted, goes_up, removed-lawful}

abbrev push : Bytes → List Bytes → List Bytes
push e above =
    if is_empty e || same_bytes e (codes ".")
    then above
    else if same_bytes e (codes "..")
    then (elim above [ [] ↦ [] | x ∷ xs ↦ xs ])
    else e ∷ above

-- `seen` is what has been read of an element, `above` the elements before, the last one first.
abbrev elements : Bytes → List Bytes → Bytes → List Bytes
elements seen above [] = push seen above
elements seen above (c ∷ s) =
    if c == 47 then elements [] (push seen above) s else elements (seen ++ (c ∷ [])) above s

abbrev render : Bytes → List Bytes → Bytes
render below [] = below
render below (e ∷ above) = render (47 ∷ (e ++ below)) above

-- An element has no slash, and is not `..`.
abbrev has_slash : Bytes → Bool
has_slash [] = false
has_slash (c ∷ s) = (c == 47) || has_slash s

abbrev IsElement : Bytes → Type 0
IsElement e = (has_slash e ≡ false) × (same_bytes e (codes "..") ≡ false)

abbrev is_end : Bytes → Bool
is_end [] = true
is_end (c ∷ s) = c == 47

goes_up_skip : (e below : Bytes) → has_slash e ≡ false → goes_up (e ++ below) ≡ goes_up below
goes_up_skip [] below h = refl
goes_up_skip (c ∷ e) below h = ground (arith, h, goes_up_skip e below)

goes_up_element :
    (e below : Bytes)
    → IsElement e
    → is_end below ≡ true
    → goes_up below ≡ false
    → goes_up (47 ∷ (e ++ below)) ≡ false
goes_up_element [] [] h b g = refl
goes_up_element [] (c ∷ s) h b g = ground (arith, b, g)
goes_up_element (x ∷ []) [] h b g = ground (arith, h.0)
goes_up_element (x ∷ []) (c ∷ s) h b g = ground (arith, h.0, b, g)
goes_up_element (x ∷ y ∷ []) [] h b g = ground (arith, h.0, h.1)
goes_up_element (x ∷ y ∷ []) (c ∷ s) h b g = ground (arith, h.0, h.1, b, g)
goes_up_element (x ∷ y ∷ z ∷ e) below h b g =
    ground (arith, h.0, g, goes_up_skip (x ∷ y ∷ z ∷ e) below h.0)

render_stays :
    (above : List Bytes) (below : Bytes)
    → All IsElement above
    → is_end below ≡ true
    → goes_up below ≡ false
    → goes_up (render below above) ≡ false
render_stays [] below h b g = g
render_stays (e ∷ above) below h b g =
    render_stays above (47 ∷ (e ++ below)) h.1 refl (goes_up_element e below h.0 b g)

has_slash_snoc : (e : Bytes) (c : ℕ) → has_slash (e ++ (c ∷ [])) ≡ (has_slash e || (c == 47))
has_slash_snoc [] c = ground arith
has_slash_snoc (x ∷ e) c = ground (arith, has_slash_snoc e c)

push-IsElement :
    (e : Bytes) (above : List Bytes)
    → has_slash e ≡ false
    → All IsElement above
    → All IsElement (push e above)
push-IsElement e above s h = elim (Bool-cases (is_empty e || same_bytes e (codes "."))) [
  | inl k ↦ rw k h
  | inr k ↦ elim (Bool-cases (same_bytes e (codes ".."))) [
    | inl up ↦ rw (k, up) (popped above h)
    | inr stays ↦ rw (k, stays) ((s, stays), h)
  ]
]
  where
    popped :
        (above : List Bytes)
        → All IsElement above
        → All IsElement (elim above [ [] ↦ [] | x ∷ xs ↦ xs ])
    popped [] h = tt
    popped (x ∷ xs) h = h.1

elements-IsElement :
    (seen : Bytes) (above : List Bytes) (s : Bytes)
    → has_slash seen ≡ false
    → All IsElement above
    → All IsElement (elements seen above s)
elements-IsElement seen above [] n h = push-IsElement seen above n h
elements-IsElement seen above (c ∷ s) n h = elim (Bool-cases (c == 47)) [
  | inl k ↦ rw k (elements-IsElement [] (push seen above) s refl (push-IsElement seen above n h))
  | inr k ↦ rw k (
      elements-IsElement (seen ++ (c ∷ [])) above s (ground (arith, n, k, has_slash_snoc seen c)) h)
]

render_rooted :
    (above : List Bytes) (below : Bytes)
    → is_rooted below ≡ true
    → is_rooted (render below above) ≡ true
render_rooted [] below h = h
render_rooted (e ∷ above) below h = render_rooted above (47 ∷ (e ++ below)) refl

abbrev or_root : List Bytes → Bytes
or_root [] = 47 ∷ []
or_root (e ∷ above) = render [] (e ∷ above)

or_root_lem :
    (above : List Bytes)
    → All IsElement above
    → (is_rooted (or_root above) ≡ true) × (goes_up (or_root above) ≡ false)
or_root_lem [] h = (refl, refl)
or_root_lem (e ∷ above) h =
    (render_rooted above (47 ∷ (e ++ [])) refl, render_stays (e ∷ above) [] h refl refl)

abbrev last_element : Bytes → Bytes → Bytes
last_element seen [] = seen
last_element seen (c ∷ s) = if c == 47 then last_element [] s else last_element (seen ++ (c ∷ [])) s

-- The directory and the relative path are not used.
abbrev unix_paths : Paths
unix_paths = record {
  clean = λ p. or_root (elements [] [] p);
  join = λ p q. or_root (elements [] [] (p ++ (47 ∷ q)));
  last_of = λ p. last_element [] p;
  dir_of = λ p. p;
  rel = λ p q. q;
}

unix_paths-IsDocumented : IsDocumented unix_paths
unix_paths-IsDocumented = record {
  join_rooted = λ p q h. (or_root_lem _ (elements-IsElement [] [] (p ++ (47 ∷ q)) refl tt)).0;
  clean_rooted = λ p h. (or_root_lem _ (elements-IsElement [] [] p refl tt)).0;
  clean_stays = λ p h. (or_root_lem _ (elements-IsElement [] [] p refl tt)).1;
}

abbrev docs : List FolderPath
docs = record { id = "docs"; path = codes "/d/" } ∷ []

abbrev copy : Bytes
copy = codes "/d/.sync-conflict-"

removed-lawful_example :
    IsInside (codes "/d") copy
    × (goes_up copy ≡ false)
    × (contains marker (codes ".sync-conflict-") ≡ true)
unfolding folder_conflict_delete checked contains ◌is◌
removed-lawful_example =
    removed-lawful unix_paths docs true "docs" (codes "y/../.sync-conflict-") (codes "/d/") copy
      unix_paths-IsDocumented refl refl refl

-- A path that leaves the folder removes nothing.
outside : (folder_conflict_delete unix_paths docs true "docs" (codes "../.sync-conflict-")).0 ≡ none
unfolding folder_conflict_delete checked contains ◌is◌
outside = refl
