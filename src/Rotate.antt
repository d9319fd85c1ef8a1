-- ===== src/Rotate.antt =====
-- decode/secure_decode_portable.c: rotation of the syndrome to the right, without branches on the
-- secret count. `qw` is the word array of a `syndrome_t`.
pub mod Big
pub mod Small
pub mod Cyclic
use bike_modify.Base.{ℕ, zero, suc, ◌+◌, ◌-◌, ◌*◌, ◌/◌, ◌%◌, ◌^◌, bit_and, bit_or}
use bike_modify.Base.{List, get_or, fill, if◌then◌else◌, ltb, ◌==◌}
use bike_modify.Word.{complement, sub_word, ◌>>>◌, shl}
use bike_modify.Params.{Level, r_qw, uptopow2}
use bike_modify.Utilities.{secure_l32_mask}

-- `R_QW_HALF_LOG2`
unfoldable pub r_qw_half_log2 : Level → ℕ
unfolding r_qw uptopow2
r_qw_half_log2 l = uptopow2 (r_qw l / 2)

-- "Convert 32 bit mask to 64 bit mask": the addition wraps in 32 bits, the subtraction in 64.
unfoldable pub mask64 : ℕ → ℕ → ℕ
mask64 qw_num idx = sub_word 64 ((secure_l32_mask qw_num idx + 1) % 2 ^ 32) 1

module _ (l : Level) where
  -- The inner loop of `rotr_big`: words move by `idx` places under a full mask.
  unfoldable pub move_words : ℕ → ℕ → List ℕ → List ℕ
  move_words idx mask out =
      fill (r_qw l + idx) 0
        (λ i qw.
          bit_or (bit_and (get_or qw i 0) (complement 64 mask))
            (bit_and (get_or qw (i + idx) 0) mask))
        out

  -- `for(idx; idx >= 1; idx >>= 1)`, with a count of the rounds that are allowed.
  unfoldable pub rotr_big_from : ℕ → ℕ → ℕ → List ℕ → List ℕ
  rotr_big_from zero idx qw_num out = out
  rotr_big_from (suc rounds) idx qw_num out =
      let m = mask64 qw_num idx in
      let rest =
        rotr_big_from rounds (idx >>> 1) (sub_word 64 qw_num (bit_and idx m))
          (move_words idx m out) in
      if idx == 0 then out else rest

  -- `idx` is a power of two of at most 9 digits, so that 10 rounds are enough.
  unfoldable pub rotr_big : List ℕ → ℕ → List ℕ
  rotr_big qw qw_num = rotr_big_from 11 (r_qw_half_log2 l) qw_num qw

  module _ (over : ℕ → ℕ → ℕ) where
    -- `x << k` on 64-bit words. C leaves the value open for `k ≥ 64`: it is `over x k`.
    abbrev pub shift_left : ℕ → ℕ → ℕ
    shift_left x k = if ltb k 64 then shl 64 x k else over x k

    -- `out` and `in` are the same array where `rotate_right` makes the call.
    unfoldable pub rotr_small : List ℕ → ℕ → List ℕ
    rotr_small qw bits =
        fill (r_qw l) 0
          (λ i out.
            bit_or (get_or out i 0 >>> bits) (shift_left (get_or out (i + 1) 0) (64 - bits)))
          qw

    unfoldable pub rotate_right : List ℕ → ℕ → List ℕ
    rotate_right qw bitscount = rotr_small (rotr_big qw (bitscount / 64)) (bitscount % 64)
