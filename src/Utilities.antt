-- ===== src/Utilities.antt =====
-- common/utilities.h and common/utilities.c: comparisons without branches, the scan for the highest
-- set digit and the weight of a vector of `R_BITS` bits.
pub mod Compare
pub mod Weight
use bike_modify.Base.{ℕ, zero, suc, ◌+◌, ◌-◌, ◌*◌, ◌/◌, ◌%◌, ◌^◌, bit_and, bit_or, bit_xor}
use bike_modify.Base.{List, get_or, for_range, Bool, if◌then◌else◌, ltb, ◌==◌, to_nat}
use bike_modify.Bits.{bit}
use bike_modify.Word.{complement, sub_word, ◌>>>◌}
use bike_modify.Params.{Level, r_size, last_r_byte_mask}

-- `return 0 < 1` of a C test, as the number it returns.
unfoldable pub secure_cmp : List ℕ → List ℕ → ℕ → ℕ
secure_cmp a b size =
    to_nat (0 == for_range size 0 (λ i res. bit_or res (bit_xor (get_or a i 0) (get_or b i 0))) 0)

unfoldable pub iszero : List ℕ → ℕ → ℕ
iszero s len = to_nat (0 == for_range len 0 (λ i res. bit_or res (get_or s i 0)) 0)

-- `while(val != 0) { val >>= 1; index++; }`, with a count of the rounds that are allowed. `index`
-- is a `uint8_t`; it ends at 64 for values from 2^63 on, and below 64 for the others.
scan_from : ℕ → ℕ → ℕ → ℕ
scan_from zero val index = index
scan_from (suc rounds) val index =
    let rest = scan_from rounds (val >>> 1) ((index + 1) % 2 ^ 8) in
    if val == 0 then index else rest

-- A 64-bit value is 0 after at most 64 rounds.
unfoldable pub bit_scan_reverse : ℕ → ℕ
unfolding scan_from
bit_scan_reverse val = scan_from 64 val 0

-- The three branches set the result to 1 or 0 by the equality of their arguments.
unfoldable pub secure_cmp32 : ℕ → ℕ → ℕ
secure_cmp32 v1 v2 = if v1 == v2 then 1 else 0

-- `cmp w2, w1; cset HI; res - 1`, the branch for aarch64: an unsigned comparison.
unfoldable pub secure_l32_mask_aarch64 : ℕ → ℕ → ℕ
secure_l32_mask_aarch64 v1 v2 = sub_word 32 (to_nat (ltb v1 v2)) 1

-- An `int32_t` as its bit pattern: the order of the signed values.
abbrev pub signed_lt : ℕ → ℕ → Bool
signed_lt a b = ltb ((a + 2 ^ 31) % 2 ^ 32) ((b + 2 ^ 31) % 2 ^ 32)

-- `cmp v2, v1; setl; dec`, the branch for x86: the comparison is signed.
unfoldable pub secure_l32_mask_x86 : ℕ → ℕ → ℕ
secure_l32_mask_x86 v1 v2 = sub_word 32 (to_nat (signed_lt v1 v2)) 1

-- The branch for other processors: `~((uint32_t)(((uint64_t)v1 - (uint64_t)v2) >> 32))`.
unfoldable pub secure_l32_mask : ℕ → ℕ → ℕ
secure_l32_mask v1 v2 = complement 32 ((sub_word 64 v1 v2 >>> 32) % 2 ^ 32)

-- `__builtin_popcount` of a byte: the digits that are 1.
unfoldable pub popcount : ℕ → ℕ → ℕ
popcount zero x = 0
popcount (suc w) x = x % 2 + popcount w (x / 2)

unfoldable pub r_bits_vector_weight : Level → List ℕ → ℕ
r_bits_vector_weight l raw =
    let acc = for_range (r_size l - 1) 0 (λ i acc. acc + popcount 8 (get_or raw i 0)) 0 in
    acc + popcount 8 (bit_and (get_or raw (r_size l - 1) 0) (last_r_byte_mask l))
