-- ===== src/Certid.antt =====
-- internal/certid/certid.go: the device ID of a certificate, and the hash in a device ID. A text is
-- the list of its bytes, which are ASCII. SHA-256 and base32 are the standard library's: `encode` is
-- the base32 text of a hash without its padding, and `decode` yields the bytes of such a text, or
-- none for an error.
pub mod Luhn
pub mod Roundtrip
mod Tests
use we_sync.Base.{
  ℕ, zero, suc, ◌+◌, ◌-◌, ◌*◌, ◌/◌, ◌%◌, Bool, true, false, not, ◌&&◌, List, [], ◌∷◌, ◌++◌, Option,
  none, some, if◌then◌else◌, leb, ltb, ◌==◌, length, take, drop,
}

abbrev pub alphabet : List ℕ
alphabet =
    65 ∷ 66 ∷ 67 ∷ 68 ∷ 69 ∷ 70 ∷ 71 ∷ 72 ∷ 73 ∷ 74 ∷ 75 ∷ 76 ∷ 77 ∷ 78 ∷ 79 ∷ 80 ∷ 81 ∷ 82 ∷ 83
    ∷ 84 ∷ 85 ∷ 86 ∷ 87 ∷ 88 ∷ 89 ∷ 90 ∷ 50 ∷ 51 ∷ 52 ∷ 53 ∷ 54 ∷ 55 ∷ []

abbrev pub dash : ℕ
dash = 45

-- `strings.IndexByte`, none where it answers -1.
unfoldable pub index_byte : List ℕ → ℕ → Option ℕ
index_byte [] c = none
index_byte (x ∷ xs) c =
    let later = index_byte xs c in
    if x == c then some 0 else (elim later [ none ↦ none | some i ↦ some (suc i) ])

abbrev pub letter_at : List ℕ → ℕ → Option ℕ
letter_at [] n = none
letter_at (x ∷ xs) zero = some x
letter_at (x ∷ xs) (suc n) = letter_at xs n

-- The loop of `luhn32` goes from the last byte to the first: the sum, and the factor of the byte
-- before. It is none for a byte out of the alphabet, which `encode` never yields.
unfoldable pub luhn_sum : List ℕ → Option (ℕ × ℕ)
unfolding index_byte
luhn_sum [] = some (0, 1)
luhn_sum (c ∷ cs) =
    let after = luhn_sum cs in
    elim after [
      | none ↦ none
      | some (sum, factor) ↦ (elim (index_byte alphabet c) [
        | none ↦ none
        | some code_point ↦
            let addend = factor * code_point in
            some (sum + (addend / 32 + addend % 32), if factor == 2 then 1 else 2)
      ])
    ]

unfoldable pub luhn32 : List ℕ → Option ℕ
unfolding luhn_sum
luhn32 s = elim (luhn_sum s) [
  | none ↦ none
  | some (sum, factor) ↦ letter_at alphabet ((32 - sum % 32) % 32)
]

-- The loop of `luhnify`, for the `n` chunks that are left.
unfoldable pub luhnify : ℕ → List ℕ → Option (List ℕ)
unfolding luhn32
luhnify zero s = some []
luhnify (suc n) s =
    let rest = luhnify n (drop 13 s) in
    elim (luhn32 (take 13 s)) [
      | none ↦ none
      | some check ↦ (elim rest [ none ↦ none | some t ↦ some (take 13 s ++ (check ∷ t)) ])
    ]

-- The groups of seven, joined by dashes: `n` groups follow the first.
unfoldable pub join_groups : ℕ → List ℕ → List ℕ
join_groups zero s = take 7 s
join_groups (suc n) s = take 7 s ++ (dash ∷ join_groups n (drop 7 s))

unfoldable pub device_id_of : (List ℕ → List ℕ) → List ℕ → Option (List ℕ)
unfolding luhnify join_groups
device_id_of encode hash = elim (luhnify 4 (encode hash)) [
  | none ↦ none
  | some s ↦ some (join_groups 7 s)
]

abbrev pub upper : ℕ → ℕ
upper c = if leb 97 c && leb c 122 then c - 32 else c

-- The dashes taken away, in upper case.
unfoldable pub plain : List ℕ → List ℕ
plain [] = []
plain (c ∷ cs) = if c == dash then plain cs else upper c ∷ plain cs

-- `s[:13] + s[14:27] + ...`, for `n` blocks.
unfoldable pub strip_checks : ℕ → List ℕ → List ℕ
strip_checks zero s = []
strip_checks (suc n) s = take 13 s ++ strip_checks n (drop 14 s)

-- `HashFromDeviceID`; none is an error.
unfoldable pub hash_from_device_id : (List ℕ → Option (List ℕ)) → List ℕ → Option (List ℕ)
unfolding plain strip_checks
hash_from_device_id decode device_id =
    let s = plain device_id in
    if not (length s == 56) then none else (elim (decode (strip_checks 4 s)) [
      | none ↦ none
      | some bytes ↦ if ltb (length bytes) 32 then none else some (take 32 bytes)
    ])
