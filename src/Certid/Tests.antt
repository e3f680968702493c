-- ===== src/Certid/Tests.antt =====
-- The hash of 32 zero bytes, whose base32 text is 52 times the letter A.
use we_sync.Base.{ℕ, zero, suc, ◌≡◌, refl, List, [], ◌∷◌, Option, none, some, arith}
use we_sync.Certid.{device_id_of, hash_from_device_id}
use we_sync.Certid.Roundtrip.{hash_from_device_id-device_id_of}

abbrev times : ℕ → ℕ → List ℕ
times zero c = []
times (suc n) c = c ∷ times n c

abbrev zeros : List ℕ
zeros = times 32 0

abbrev encode : List ℕ → List ℕ
encode [] = []
encode (c ∷ cs) = times 52 65

abbrev decode : List ℕ → Option (List ℕ)
decode [] = none
decode (c ∷ cs) = some zeros

hash_from_device_id-device_id_of_example :
    (device_id : List ℕ) × (device_id_of encode zeros ≡ some device_id)
    × (hash_from_device_id decode device_id ≡ some zeros)
hash_from_device_id-device_id_of_example =
    hash_from_device_id-device_id_of encode decode zeros refl refl (ground arith) refl
