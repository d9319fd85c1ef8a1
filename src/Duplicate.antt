-- ===== src/Duplicate.antt =====
-- decode/decode.c: `dup`, `dup_two` and `rotate_right_one`, which lay copies of a vector of `R_BITS`
-- digits one behind the other in an array of words.
pub mod Syndrome
use bike_modify.Base.{ℕ, zero, suc, ◌+◌, ◌-◌, ◌*◌, ◌/◌, ◌^◌, bit_and, bit_or}
use bike_modify.Base.{List, get_or, set, for_range}
use bike_modify.Word.{◌>>>◌, shl}
use bike_modify.Params.{Level, r_qw, last_r_qw_lead, last_r_qw_trail, last_r_qw_mask}

-- `s->qw[R_QW - 1] = (s->qw[0] << LAST_R_QW_LEAD) | (s->qw[R_QW - 1] & LAST_R_QW_MASK)`
unfoldable pub close_last_word : Level → List ℕ → List ℕ
close_last_word l s = set s (r_qw l - 1) (
    bit_or (shl 64 (get_or s 0 0) (last_r_qw_lead l))
      (bit_and (get_or s (r_qw l - 1) 0) (last_r_qw_mask l)))

-- `s->qw[R_QW + i] = (s->qw[i] >> LAST_R_QW_TRAIL) | (s->qw[i + 1] << LAST_R_QW_LEAD)`
unfoldable pub copy_word : Level → ℕ → List ℕ → List ℕ
copy_word l i s =
    set s (r_qw l + i)
      (bit_or (get_or s i 0 >>> last_r_qw_trail l) (shl 64 (get_or s (i + 1) 0) (last_r_qw_lead l)))

unfoldable pub dup : Level → List ℕ → List ℕ
dup l s = for_range (2 * r_qw l - 1) 0 (copy_word l) (close_last_word l s)

-- The body of the loop of `dup_two`, at level 1: the word numbers 185, 184, 368 and 369 of the
-- source stand for `R_QW`, `R_QW - 1`, `2 * R_QW - 2` and `2 * R_QW - 1` there.
unfoldable pub copy_word_down : Level → ℕ → List ℕ → List ℕ
copy_word_down l i h = set h i (
    bit_or (shl 64 (get_or h (r_qw l + i) 0) (last_r_qw_trail l))
      (get_or h (r_qw l + i - 1) 0 >>> last_r_qw_lead l))

-- The loop runs from 184 down to 1: round `k` writes word `184 - k`.
unfoldable pub dup_two : Level → List ℕ → List ℕ
dup_two l h =
    let first = set h 0 (
      bit_or
        (bit_or (shl 64 (get_or h 185 0) (last_r_qw_trail l))
          (shl 64 (get_or h 369 0) (64 - 2 * last_r_qw_lead l)))
        (get_or h 368 0 >>> (2 * last_r_qw_lead l))) in
    for_range 184 0 (λ k. copy_word_down l (184 - k)) first

-- The loop runs from 369 down to `R_QW`: round `k` writes word `369 - k`. Its one caller passes the
-- same array for `out` and `in`.
unfoldable pub rotate_right_one : Level → List ℕ → List ℕ
rotate_right_one l h =
    for_range (370 - r_qw l) 0
      (λ k qw.
        set qw (369 - k)
          (bit_or (shl 64 (get_or qw (369 - k) 0) 1) (get_or qw (369 - k - 1) 0 >>> 63)))
      h
