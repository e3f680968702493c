-- ===== src/Certid/Roundtrip.antt =====
-- A device ID holds the hash that it was made from.
use we_sync.Base.{
  ℕ, zero, suc, ◌*◌, ◌≡◌, refl, subst, ◌&&◌, ap, ◌∙◌, Bool, true, not, List, [], ◌∷◌, ◌++◌, Option,
  some, ◌==◌, length, take, drop, any, All, arith, Bool-cases, inl, inr,
}
use we_sync.Certid.{
  alphabet, dash, luhnify, join_groups, device_id_of, plain, strip_checks, hash_from_device_id,
  upper,
}
use we_sync.Certid.Luhn.{
  IsLetter, luhnify-IsChecked, take-drop, length-drop, take-IsLetter, drop-IsLetter,
}

-- The tests that every byte of a list passes, at a byte of the list.
any-All :
    (p : ℕ → Bool) (xs : List ℕ) (c : ℕ)
    → All (λ x. p x ≡ true) xs
    → any (λ x. x == c) xs ≡ true
    → p c ≡ true
any-All p [] c h k = absurd (ground (arith, k))
any-All p (x ∷ xs) c h k = elim (Bool-cases (x == c)) [
  | inl same ↦ let e : x ≡ c = ground (arith, same) in subst (λ y. p y ≡ true) e h.0
  | inr other ↦ any-All p xs c h.1 (ground (arith, k, other))
]

abbrev is_plain : ℕ → Bool
is_plain c = not (c == dash) && (upper c == c)

letter-plain : (c : ℕ) → IsLetter c → is_plain c ≡ true
letter-plain c h = any-All is_plain alphabet c all_plain h
  where
    all_plain : All (λ x. is_plain x ≡ true) alphabet
    all_plain = ground arith

plain_step : (c : ℕ) (cs : List ℕ) → is_plain c ≡ true → plain (c ∷ cs) ≡ c ∷ plain cs
unfolding plain
plain_step c cs h = ground (arith, h)

plain-letters : (s : List ℕ) → All IsLetter s → plain s ≡ s
unfolding plain
plain-letters [] h = refl
plain-letters (c ∷ cs) h =
    plain_step c cs (letter-plain c h.0) ∙ ap (λ t. c ∷ t) (plain-letters cs h.1)

plain-append : (s t : List ℕ) → plain (s ++ t) ≡ plain s ++ plain t
unfolding plain
plain-append [] t = refl
plain-append (c ∷ cs) t = ground (arith, plain-append cs t)

plain-dash : (t : List ℕ) → plain (dash ∷ t) ≡ plain t
unfolding plain
plain-dash t = refl

take_all : (n : ℕ) (xs : List ℕ) → length xs ≡ n → take n xs ≡ xs
take_all zero [] h = refl
take_all zero (x ∷ xs) h = absurd (omega (arith, h))
take_all (suc n) [] h = refl
take_all (suc n) (x ∷ xs) h = ap (λ ys. x ∷ ys) (take_all n xs (omega (arith, h)))

-- Without its dashes, a text in groups is the text.
plain-join_groups :
    (n : ℕ) (s : List ℕ) → length s ≡ 7 * suc n → All IsLetter s → plain (join_groups n s) ≡ s
unfolding join_groups
plain-join_groups zero s h l = plain-letters (take 7 s) (take-IsLetter 7 s l) ∙ take_all 7 s h
plain-join_groups (suc n) s h l =
    plain-append (take 7 s) (dash ∷ join_groups n (drop 7 s))
    ∙ ap (λ t. plain (take 7 s) ++ t) (plain-dash (join_groups n (drop 7 s)))
    ∙ ap (λ t. plain (take 7 s) ++ t)
        (plain-join_groups n (drop 7 s) (omega (arith, h, length-drop 7 s)) (drop-IsLetter 7 s l))
    ∙ ap (λ t. t ++ drop 7 s) (plain-letters (take 7 s) (take-IsLetter 7 s l))
    ∙ take-drop 7 s

-- If base32 makes 52 letters of the 32 bytes of a hash, and decodes them to the hash again, then the
-- hash has a device ID, and the hash of that device ID is the hash itself.
pub hash_from_device_id-device_id_of :
    (encode : List ℕ → List ℕ) (decode : List ℕ → Option (List ℕ)) (hash : List ℕ)
    → length hash ≡ 32
    → length (encode hash) ≡ 52
    → All IsLetter (encode hash)
    → decode (encode hash) ≡ some hash
    → (device_id : List ℕ) × (device_id_of encode hash ≡ some device_id)
      × (hash_from_device_id decode device_id ≡ some hash)
unfolding device_id_of hash_from_device_id
hash_from_device_id-device_id_of encode decode hash size long letters decoded =
    let (t, checked) = luhnify-IsChecked 4 (encode hash) (omega (arith, long)) letters in
    let same = plain-join_groups 7 t (omega (arith, checked.long)) checked.letters in
    (join_groups 7 t, made t checked.made, hashed t same checked.long checked.stripped)
  where
    made :
        (t : List ℕ)
        → luhnify 4 (encode hash) ≡ some t
        → device_id_of encode hash ≡ some (join_groups 7 t)
    made t h = unfold device_id_of in rw (h, device_id_of) refl

    hashed :
        (t : List ℕ)
        → plain (join_groups 7 t) ≡ t
        → length t ≡ 14 * 4
        → strip_checks 4 t ≡ encode hash
        → hash_from_device_id decode (join_groups 7 t) ≡ some hash
    hashed t same long' stripped =
        unfold hash_from_device_id in
        rw (same, stripped, decoded, hash_from_device_id)
          (ground (arith, long', size, take_all 32 hash size))
