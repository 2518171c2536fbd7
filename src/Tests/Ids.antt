-- ===== src/Tests/Ids.antt =====
-- The XOR metric of internal/dht/ids.go on three node IDs.
use freens.Prelude.{ℕ, ◌≡◌, refl, Bytes, [], ◌∷◌, some, compare, arith}
use freens.Ids.{check_id, compare_distance, bit_len_u8, common_prefix_length}
use freens.Ids.Distance.{IsId, distance, compare_distance-distance}

-- An ID of zeros but for its last byte, and its first one.
abbrev id_of : ℕ → ℕ → Bytes
id_of first last =
    first ∷ 0 ∷ 0 ∷ 0 ∷ 0 ∷ 0 ∷ 0 ∷ 0 ∷ 0 ∷ 0 ∷ 0 ∷ 0 ∷ 0 ∷ 0 ∷ 0 ∷ 0 ∷ 0 ∷ 0 ∷ 0 ∷ 0 ∷ 0 ∷ 0 ∷ 0
    ∷ 0 ∷ 0 ∷ 0 ∷ 0 ∷ 0 ∷ 0 ∷ 0 ∷ 0 ∷ last ∷ []

abbrev target : Bytes
target = id_of 0 5

abbrev near : Bytes
near = id_of 0 9

abbrev far : Bytes
far = id_of 64 9

target-IsId : IsId target
target-IsId = record { len = refl; bytes = ground arith }

near-IsId : IsId near
near-IsId = record { len = refl; bytes = ground arith }

far-IsId : IsId far
far-IsId = record { len = refl; bytes = ground arith }

run_near : common_prefix_length target near ≡ some 252
unfolding common_prefix_length check_id bit_len_u8
run_near = refl

run_far : common_prefix_length target far ≡ some 1
unfolding common_prefix_length check_id bit_len_u8
run_far = refl

compare_distance-distance_example :
    compare_distance target near far ≡ compare (distance target near) (distance target far)
compare_distance-distance_example =
    compare_distance-distance target near far target-IsId near-IsId far-IsId
