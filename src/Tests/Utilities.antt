-- ===== src/Tests/Utilities.antt =====
-- Inputs for the comparisons, the scan and the weight.
use bike_modify.Base.{ℕ, ◌*◌, ◌-◌, ◌^◌, ◌≤◌, ◌<◌, ◌≡◌, ◌↔◌, ◌⊎◌, refl, arith, List, [], ◌∷◌, get_or}
use bike_modify.Base.{if◌then◌else◌, ltb, replicate, for_range}
use bike_modify.Bytes.{byte_bit}
use bike_modify.Params.{level1, r_bits, r_size, last_r_byte_mask}
use bike_modify.Utilities.{
  secure_cmp, iszero, bit_scan_reverse, secure_l32_mask, secure_l32_mask_x86,
}
use bike_modify.Utilities.{secure_l32_mask_aarch64, popcount, r_bits_vector_weight}
use bike_modify.Utilities.Compare.{secure_cmp_lem, bit_scan_reverse_lem}
use bike_modify.Utilities.Compare.{
  secure_l32_mask_lem, secure_l32_mask_branches, secure_l32_mask_x86_differs,
}
use bike_modify.Utilities.Weight.{ones, r_bits_vector_weight_lem}

abbrev tag : List ℕ
tag = 1 ∷ 2 ∷ 3 ∷ []

abbrev other : List ℕ
other = 1 ∷ 2 ∷ 4 ∷ []

compare_runs : (secure_cmp tag other 3 ≡ 0) × (secure_cmp tag other 2 ≡ 1) × (iszero tag 3 ≡ 0)
unfolding secure_cmp iszero for_range
compare_runs = (refl, refl, refl)

scan_runs : (bit_scan_reverse 8 ≡ 4) × (bit_scan_reverse 11779 ≡ 14) × (bit_scan_reverse 0 ≡ 0)
unfolding bit_scan_reverse
scan_runs = (refl, refl, refl)

secure_cmp_lem_example :
    ((secure_cmp tag other 3 ≡ 1) ↔ ((i : ℕ) → i < 3 → get_or tag i 0 ≡ get_or other i 0))
    × (secure_cmp tag other 3 ≤ 1)
secure_cmp_lem_example = secure_cmp_lem tag other 3

abbrev scanned : ℕ
scanned = 11779

bit_scan_reverse_lem_example :
    (scanned < 2 ^ bit_scan_reverse scanned)
    × (bit_scan_reverse scanned ≤ 64)
    × (((scanned ≡ 0) × (bit_scan_reverse scanned ≡ 0))
        ⊎ (2 ^ bit_scan_reverse scanned ≤ 2 * scanned))
    × (((scanned < 2 ^ 63) × (bit_scan_reverse scanned < 64))
        ⊎ ((2 ^ 63 ≤ scanned) × (bit_scan_reverse scanned ≡ 64)))
bit_scan_reverse_lem_example = bit_scan_reverse_lem scanned (omega arith)

secure_l32_mask_lem_example : secure_l32_mask 184 128 ≡ (if ltb 184 128 then 0 else 2 ^ 32 - 1)
secure_l32_mask_lem_example = secure_l32_mask_lem 184 128 (omega arith) (omega arith)

secure_l32_mask_branches_example :
    (secure_l32_mask_aarch64 56 64 ≡ secure_l32_mask 56 64)
    × (secure_l32_mask_x86 56 64 ≡ secure_l32_mask 56 64)
secure_l32_mask_branches_example = secure_l32_mask_branches 56 64 (omega arith) (omega arith)

secure_l32_mask_x86_differs_example :
    (secure_l32_mask 1 (2 ^ 31) ≡ 0) × (secure_l32_mask_x86 1 (2 ^ 31) ≡ 2 ^ 32 - 1)
secure_l32_mask_x86_differs_example =
    secure_l32_mask_x86_differs 1 (2 ^ 31) (omega arith) (omega arith) (omega arith)

abbrev full : List ℕ
full = replicate 1473 255

weight_runs : r_bits_vector_weight level1 full ≡ 11779
unfolding r_bits_vector_weight popcount for_range r_size last_r_byte_mask
weight_runs = refl

r_bits_vector_weight_lem_example :
    r_bits_vector_weight level1 full ≡ ones (byte_bit full) (r_bits level1)
r_bits_vector_weight_lem_example = r_bits_vector_weight_lem level1 full
