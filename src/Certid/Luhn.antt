-- ===== src/Certid/Luhn.antt =====
-- The check characters: they are letters of the alphabet, and they can be taken away again.
use we_sync.Base.{
  ℕ, zero, suc, ◌+◌, ◌-◌, ◌*◌, ◌/◌, ◌%◌, ◌<◌, ◌≤◌, ◌≡◌, refl, ap, true, List, [], ◌∷◌, ◌++◌, some,
  if◌then◌else◌, ◌==◌, length, take, drop, any, All, arith, length-append, inl, inr, Bool-cases,
}
use we_sync.Certid.{alphabet, index_byte, letter_at, luhn_sum, luhn32, luhnify, strip_checks}

-- A byte of the alphabet.
abbrev pub IsLetter : ℕ → Type 0
IsLetter c = any (λ x. x == c) alphabet ≡ true

index_byte-found :
    (xs : List ℕ) (c : ℕ) → any (λ x. x == c) xs ≡ true → (i : ℕ) × (index_byte xs c ≡ some i)
unfolding index_byte
index_byte-found [] c h = absurd (ground (arith, h))
index_byte-found (x ∷ xs) c h = elim (Bool-cases (x == c)) [
  | inl same ↦ (0, ground (arith, same))
  | inr other ↦
      let (i, found) = index_byte-found xs c (ground (arith, h, other)) in
      (suc i, ground (arith, other, found))
]

letter_at-found :
    (xs : List ℕ) (n : ℕ)
    → n < length xs
    → (c : ℕ) × (letter_at xs n ≡ some c) × (any (λ x. x == c) xs ≡ true)
letter_at-found [] n h = absurd (omega (arith, h))
letter_at-found (x ∷ xs) zero h = (x, refl, ground arith)
letter_at-found (x ∷ xs) (suc n) h =
    let (c, found, letter) = letter_at-found xs n (omega (arith, h)) in
    (c, found, ground (arith, letter))

luhn_sum-found : (s : List ℕ) → All IsLetter s → (r : ℕ × ℕ) × (luhn_sum s ≡ some r)
unfolding luhn_sum
luhn_sum-found [] h = ((0, 1), refl)
luhn_sum-found (c ∷ cs) (letter, h) =
    let ((sum, factor), after) = luhn_sum-found cs h in
    let (i, found) = index_byte-found alphabet c letter in
    (
      (sum + (factor * i / 32 + factor * i % 32), if factor == 2 then 1 else 2),
      rw (after, found) refl,
    )

-- A chunk of letters has a check character, which is a letter.
luhn32-IsLetter : (s : List ℕ) → All IsLetter s → (c : ℕ) × (luhn32 s ≡ some c) × IsLetter c
unfolding luhn32
luhn32-IsLetter s h =
    let ((sum, factor), total) = luhn_sum-found s h in
    let (c, found, letter) = letter_at-found alphabet ((32 - sum % 32) % 32) (omega arith) in
    (c, rw (total, luhn32) found, letter)

pub take-drop : (n : ℕ) (xs : List ℕ) → take n xs ++ drop n xs ≡ xs
take-drop zero xs = refl
take-drop (suc n) [] = refl
take-drop (suc n) (x ∷ xs) = ap (λ ys. x ∷ ys) (take-drop n xs)

pub length-take_le : (n : ℕ) (xs : List ℕ) → n ≤ length xs → length (take n xs) ≡ n
length-take_le zero xs h = refl
length-take_le (suc n) [] h = absurd (omega (arith, h))
length-take_le (suc n) (x ∷ xs) h = omega (arith, length-take_le n xs (omega (arith, h)))

pub length-drop : (n : ℕ) (xs : List ℕ) → length (drop n xs) ≡ length xs - n
length-drop zero xs = omega arith
length-drop (suc n) [] = omega arith
length-drop (suc n) (x ∷ xs) = omega (arith, length-drop n xs)

take-append : (n : ℕ) (xs ys : List ℕ) → length xs ≡ n → take n (xs ++ ys) ≡ xs
take-append zero [] ys h = refl
take-append zero (x ∷ xs) ys h = absurd (omega (arith, h))
take-append (suc n) [] ys h = absurd (omega (arith, h))
take-append (suc n) (x ∷ xs) ys h = ap (λ zs. x ∷ zs) (take-append n xs ys (omega (arith, h)))

drop-append : (n y : ℕ) (xs ys : List ℕ) → length xs ≡ n → drop (suc n) (xs ++ (y ∷ ys)) ≡ ys
drop-append zero y [] ys h = refl
drop-append zero y (x ∷ xs) ys h = absurd (omega (arith, h))
drop-append (suc n) y [] ys h = absurd (omega (arith, h))
drop-append (suc n) y (x ∷ xs) ys h = drop-append n y xs ys (omega (arith, h))

pub take-IsLetter : (n : ℕ) (xs : List ℕ) → All IsLetter xs → All IsLetter (take n xs)
take-IsLetter zero xs h = tt
take-IsLetter (suc n) [] h = tt
take-IsLetter (suc n) (x ∷ xs) h = (h.0, take-IsLetter n xs h.1)

pub drop-IsLetter : (n : ℕ) (xs : List ℕ) → All IsLetter xs → All IsLetter (drop n xs)
drop-IsLetter zero xs h = h
drop-IsLetter (suc n) [] h = tt
drop-IsLetter (suc n) (x ∷ xs) h = drop-IsLetter n xs h.1

append-IsLetter : (xs ys : List ℕ) → All IsLetter xs → All IsLetter ys → All IsLetter (xs ++ ys)
append-IsLetter [] ys h k = k
append-IsLetter (x ∷ xs) ys h k = (h.0, append-IsLetter xs ys h.1 k)

luhnify_step :
    (n c : ℕ) (s t : List ℕ)
    → luhn32 (take 13 s) ≡ some c
    → luhnify n (drop 13 s) ≡ some t
    → luhnify (suc n) s ≡ some (take 13 s ++ (c ∷ t))
unfolding luhnify
luhnify_step n c s t check rest = rw (check, rest, luhnify) refl

-- A text of chunks gets its check characters, stays one of letters, and without them is what it was.
pub record IsChecked (n : ℕ) (s t : List ℕ) : Type 0 where
  pub made : luhnify n s ≡ some t
  pub letters : All IsLetter t
  pub long : length t ≡ 14 * n
  pub stripped : strip_checks n t ≡ s

pub luhnify-IsChecked :
    (n : ℕ) (s : List ℕ) → length s ≡ 13 * n → All IsLetter s → (t : List ℕ) × IsChecked n s t
unfolding luhnify strip_checks
luhnify-IsChecked zero [] h l =
    ([], record { made = refl; letters = tt; long = refl; stripped = refl })
luhnify-IsChecked zero (x ∷ s) h l = absurd (omega (arith, h))
luhnify-IsChecked (suc n) s h l =
    let chunk = take 13 s in
    let letters' = take-IsLetter 13 s l in
    let size = length-take_le 13 s (omega (arith, h)) in
    let (c, check, letter) = luhn32-IsLetter chunk letters' in
    let (t, rest) =
      luhnify-IsChecked n (drop 13 s) (omega (arith, h, length-drop 13 s)) (drop-IsLetter 13 s l) in
    (
      chunk ++ (c ∷ t),
      record {
        made = luhnify_step n c s t check rest.made;
        letters = append-IsLetter chunk (c ∷ t) letters' (letter, rest.letters);
        long = omega (arith, length-append chunk (c ∷ t), size, rest.long);
        stripped =
            rw (take-append 13 chunk (c ∷ t) size, drop-append 13 c chunk t size, rest.stripped)
              (take-drop 13 s);
      },
    )
