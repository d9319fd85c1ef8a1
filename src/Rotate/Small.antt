-- ===== src/Rotate/Small.antt =====
-- `rotr_small` moves the digits within and across words, and `rotate_right` does both steps.
use bike_modify.Base.{ℕ, ◌+◌, ◌-◌, ◌*◌, ◌/◌, ◌%◌, ◌^◌, ◌≤◌, ◌<◌, ◌≡◌, ◌≢◌, refl, ap, ap₂, ◌∙◌}
use bike_modify.Base.{arith, List, get_or, length, length-fill, fill_inside, fill_outside}
use bike_modify.Base.{bit_or, if◌then◌else◌, ltb, lt_or_le, lt→ltb, le→ltb, ◌⊎◌, inl, inr, eq_or_ne}
use bike_modify.Bits.{bit, bit_cong}
use bike_modify.Word.{
  IsWords, ◌>>>◌, bit-funnel, bit_at, bit_or-zero, bit_or-lt, div-pow-lt, shl-lt,
}
use bike_modify.Params.{Level, r_qw}
use bike_modify.Rotate.{rotr_small, rotr_big, rotate_right, shift_left}
use bike_modify.Rotate.Big.{rotr_big_lem, length-rotr_big, rotr_big-IsWords}

-- The count is no multiple of 64, or the platform gives 0 for `x << 64`.
abbrev pub Shiftable : (ℕ → ℕ → ℕ) → ℕ → Type 0
Shiftable over n = (n % 64 ≢ 0) ⊎ ((x : ℕ) → over x 64 ≡ 0)

module _ (l : Level) (over : ℕ → ℕ → ℕ) where
  -- Each word of the result comes from two words of the array, also where it is worked on in
  -- place.
  pub rotr_small_word :
      (qw : List ℕ) (bits i : ℕ)
      → i < r_qw l
      → r_qw l ≤ length qw
      → get_or (rotr_small l over qw bits) i 0
        ≡ bit_or (get_or qw i 0 >>> bits) (shift_left l over (get_or qw (i + 1) 0) (64 - bits))
  unfolding rotr_small
  rotr_small_word qw bits i p q =
      fill_inside 0 _
        (λ k xs ys a.
          ap₂ bit_or (ap (λ t. t >>> bits) (a k (omega arith)))
            (ap (λ t. shift_left l over t (64 - bits)) (a (k + 1) (omega arith))))
        (r_qw l) 0 qw i (omega arith) (omega arith) (omega arith)

  -- By 1 to 63 digits: digit `b` of word `i` is digit `b + bits` from word `i` on.
  rotr_small_lem :
      (qw : List ℕ) (bits i b : ℕ)
      → 0 < bits
      → bits < 64
      → i < r_qw l
      → r_qw l ≤ length qw
      → b < 64
      → get_or qw i 0 < 2 ^ 64
      → bit (get_or (rotr_small l over qw bits) i 0) b ≡ (
          if ltb (b + bits) 64
          then bit (get_or qw i 0) (b + bits)
          else bit (get_or qw (i + 1) 0) (b + bits - 64))
  rotr_small_lem qw bits i b p q r s h w =
      ap (λ t. bit t b) (rotr_small_word qw bits i r s)
      ∙ rw (lt→ltb (64 - bits) 64 (omega arith))
          (bit-funnel 64 bits (64 - bits) (get_or qw i 0) (get_or qw (i + 1) 0) b (omega arith) h w)

  -- `rotate_right` by a count that is no multiple of 64: digit `p` of the result is digit
  -- `p + bitscount` of the array.
  pub rotate_right_lem :
      (qw : List ℕ) (bitscount p : ℕ)
      → bitscount % 64 ≢ 0
      → bitscount / 64 ≤ r_qw l
      → length qw ≡ 3 * r_qw l
      → IsWords 64 qw
      → p < 64 * r_qw l
      → bit_at (rotate_right l over qw bitscount) p ≡ bit_at qw (p + bitscount)
  unfolding rotate_right bit_at
  rotate_right_lem qw n p ne small len w h =
      let big = rotr_big l qw (n / 64) in
      let here = rotr_big_lem l (n / 64) (p / 64) qw small len w (omega arith) in
      let next = rotr_big_lem l (n / 64) (p / 64 + 1) qw small len w (omega arith) in
      rotr_small_lem big (n % 64) (p / 64) (p % 64) (omega arith) (omega arith) (omega arith)
        (rw (length-rotr_big l qw (n / 64)) (omega arith)) (omega arith) (rw here (w _))
      ∙ elim (lt_or_le (p % 64 + n % 64) 64) [
        | inl q ↦
            rw (lt→ltb (p % 64 + n % 64) 64 q, here)
              (bit_cong {i = p % 64 + n % 64} {j = (p + n) % 64}
                (ap (λ t. get_or qw t 0) {x = p / 64 + n / 64} {y = (p + n) / 64} (omega arith))
                (omega arith))
        | inr q ↦
            rw (le→ltb (p % 64 + n % 64) 64 q, next)
              (bit_cong {i = p % 64 + n % 64 - 64} {j = (p + n) % 64}
                (ap (λ t. get_or qw t 0) {x = p / 64 + 1 + n / 64} {y = (p + n) / 64} (omega arith))
                (omega arith))
      ]

  -- On an array of three copies, `rotate_right` by a multiple of 64 within a copy shifts by 64 digits, which C leaves open: word `i` of the
  -- result is `qw[i + n / 64] | over(qw[i + 1 + n / 64], 64)`.
  pub rotate_right_aligned :
      (qw : List ℕ) (bitscount i : ℕ)
      → bitscount % 64 ≡ 0
      → bitscount / 64 ≤ r_qw l
      → length qw ≡ 3 * r_qw l
      → IsWords 64 qw
      → i < r_qw l
      → get_or (rotate_right l over qw bitscount) i 0
        ≡ bit_or (get_or qw (i + bitscount / 64) 0) (over (get_or qw (i + 1 + bitscount / 64) 0) 64)
  unfolding rotate_right
  rotate_right_aligned qw n i e small len w h =
      let big = rotr_big l qw (n / 64) in
      let here = rotr_big_lem l (n / 64) i qw small len w (omega arith) in
      let next = rotr_big_lem l (n / 64) (i + 1) qw small len w (omega arith) in
      rotr_small_word big (n % 64) i h (rw (length-rotr_big l qw (n / 64)) (omega arith))
      ∙ rw (e, here, next) (ap₂ bit_or (omega arith) refl)

  -- `rotate_right` by a multiple of 64, where the platform gives 0 for a shift by 64.
  rotate_right_word :
      (qw : List ℕ) (bitscount p : ℕ)
      → bitscount % 64 ≡ 0
      → ((x : ℕ) → over x 64 ≡ 0)
      → bitscount / 64 ≤ r_qw l
      → length qw ≡ 3 * r_qw l
      → IsWords 64 qw
      → p < 64 * r_qw l
      → bit_at (rotate_right l over qw bitscount) p ≡ bit_at qw (p + bitscount)
  unfolding bit_at
  rotate_right_word qw n p e zero_shift small len w h =
      ap (λ t. bit t (p % 64))
        (rotate_right_aligned qw n (p / 64) e small len w (omega arith)
          ∙ rw (zero_shift (get_or qw (p / 64 + 1 + n / 64) 0)) (bit_or-zero _))
      ∙ bit_cong {i = p % 64} {j = (p + n) % 64}
          (ap (λ t. get_or qw t 0) {x = p / 64 + n / 64} {y = (p + n) / 64} (omega arith))
          (omega arith)

  -- `rotate_right` by any count for which the shift it makes has a value that is of use: digit `p`
  -- of the result is digit `p + bitscount` of the array.
  pub rotate_right_any :
      (qw : List ℕ) (bitscount p : ℕ)
      → Shiftable over bitscount
      → bitscount / 64 ≤ r_qw l
      → length qw ≡ 3 * r_qw l
      → IsWords 64 qw
      → p < 64 * r_qw l
      → bit_at (rotate_right l over qw bitscount) p ≡ bit_at qw (p + bitscount)
  rotate_right_any qw n p (inl ne) small len w h = rotate_right_lem qw n p ne small len w h
  rotate_right_any qw n p (inr z) small len w h = elim (eq_or_ne (n % 64) 0) [
    | inl e ↦ rotate_right_word qw n p e z small len w h
    | inr ne ↦ rotate_right_lem qw n p ne small len w h
  ]

  -- The result is an array of words again, as long as the one rotated.
  pub rotate_right-IsWords :
      (qw : List ℕ) (bitscount : ℕ)
      → Shiftable over bitscount
      → bitscount / 64 ≤ r_qw l
      → length qw ≡ 3 * r_qw l
      → IsWords 64 qw
      → IsWords 64 (rotate_right l over qw bitscount)
        × (length (rotate_right l over qw bitscount) ≡ 3 * r_qw l)
  unfolding rotate_right
  rotate_right-IsWords qw n ok small len w =
      (words, unfold rotr_small in length-fill 0 _ (r_qw l) 0 big ∙ size)
    where
      big : List ℕ
      big = rotr_big l qw (n / 64)

      size : length big ≡ 3 * r_qw l
      size = length-rotr_big l qw (n / 64) ∙ len

      big_words : IsWords 64 big
      big_words = rotr_big-IsWords l qw (n / 64) small len w

      shifted : (x : ℕ) → shift_left l over x (64 - n % 64) < 2 ^ 64
      shifted x = elim ok [
        | inl ne ↦ rw (lt→ltb (64 - n % 64) 64 (omega arith)) (shl-lt 64 x (64 - n % 64))
        | inr z ↦ elim (eq_or_ne (n % 64) 0) [
          | inl e ↦ rw (e, z x) (omega arith)
          | inr ne ↦ rw (lt→ltb (64 - n % 64) 64 (omega arith)) (shl-lt 64 x (64 - n % 64))
        ]
      ]

      words : IsWords 64 (rotr_small l over big (n % 64))
      words i = elim (lt_or_le i (r_qw l)) [
        | inl h ↦
            rw (rotr_small_word big (n % 64) i h (omega (arith, size)))
              (bit_or-lt 64 _ _ (div-pow-lt 64 (get_or big i 0) (n % 64) (big_words i)) (shifted _))
        | inr h ↦
            unfold rotr_small in
            rw (fill_outside 0 _ (r_qw l) 0 big i (inr (omega arith))) (big_words i)
      ]
