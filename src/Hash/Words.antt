-- ===== src/Hash/Words.antt =====
-- The functions of the standard on words are the expressions of the code.
use bike_modify.Base.{ℕ, ◌+◌, ◌-◌, ◌^◌, ◌<◌, ◌≡◌, ap, ap₂, sym, ◌∙◌, arith}
use bike_modify.Base.{bit_and, bit_or, bit_xor, xor, ◌||◌}
use bike_modify.Bits.{
  bit, bit_ext, bit-and, bit-or, bit-xor, bit-div-pow, bit-lt-pow, bit-complement,
}
use bike_modify.Word.{
  ◌>>>◌, shl, complement, bit-shl, shl-lt, div-pow-lt, bit_or-lt, bit_xor-lt, bit_and-lt,
}
use bike_modify.Hash.{rotr}
use bike_modify.Hash.Standard.{rotated, choose, majority, sum0, sum1, sigma0, sigma1}

module _ (x : ℕ) (x_lt : x < 2 ^ 64) where
  -- No digit is set in both parts of a rotation.
  pub rotated_lem : (n : ℕ) → 0 < n → n < 64 → rotated x n ≡ rotr x n
  unfolding rotated
  rotated_lem n pos h =
      bit_ext 64 _ _
        (bit_or-lt 64 (x >>> n) (shl 64 x (64 - n)) (div-pow-lt 64 x n x_lt) (shl-lt 64 x (64 - n)))
        (bit_xor-lt 64 (x >>> n) (shl 64 x (64 - n)) (div-pow-lt 64 x n x_lt)
          (shl-lt 64 x (64 - n)))
        (λ i k.
          bit-or i (x >>> n) (shl 64 x (64 - n))
          ∙ apart i k
          ∙ sym (bit-xor i (x >>> n) (shl 64 x (64 - n))))
    where
      apart :
          (i : ℕ)
          → i < 64
          → (bit (x >>> n) i || bit (shl 64 x (64 - n)) i)
            ≡ xor (bit (x >>> n) i) (bit (shl 64 x (64 - n)) i)
      apart i k =
          unfold xor in
          ground (arith, bit-div-pow n x i, bit-shl 64 x (64 - n) i k, bit-lt-pow 64 x x_lt (n + i))

  pub sum0_lem : sum0 x ≡ bit_xor (bit_xor (rotr x 28) (rotr x 34)) (rotr x 39)
  unfolding sum0
  sum0_lem =
      ap₂ bit_xor
        (ap₂ bit_xor (rotated_lem 28 (omega arith) (omega arith))
          (rotated_lem 34 (omega arith) (omega arith)))
        (rotated_lem 39 (omega arith) (omega arith))

  pub sum1_lem : sum1 x ≡ bit_xor (bit_xor (rotr x 14) (rotr x 18)) (rotr x 41)
  unfolding sum1
  sum1_lem =
      ap₂ bit_xor
        (ap₂ bit_xor (rotated_lem 14 (omega arith) (omega arith))
          (rotated_lem 18 (omega arith) (omega arith)))
        (rotated_lem 41 (omega arith) (omega arith))

  pub sigma0_lem : sigma0 x ≡ bit_xor (bit_xor (rotr x 1) (rotr x 8)) (x >>> 7)
  unfolding sigma0
  sigma0_lem =
      ap (λ t. bit_xor t (x >>> 7))
        (ap₂ bit_xor (rotated_lem 1 (omega arith) (omega arith))
          (rotated_lem 8 (omega arith) (omega arith)))

  pub sigma1_lem : sigma1 x ≡ bit_xor (bit_xor (rotr x 19) (rotr x 61)) (x >>> 6)
  unfolding sigma1
  sigma1_lem =
      ap (λ t. bit_xor t (x >>> 6))
        (ap₂ bit_xor (rotated_lem 19 (omega arith) (omega arith))
          (rotated_lem 61 (omega arith) (omega arith)))

  module _ (y z : ℕ) (y_lt : y < 2 ^ 64) (z_lt : z < 2 ^ 64) where
    pub choose_lem : choose x y z ≡ bit_xor z (bit_and x (bit_xor y z))
    unfolding choose
    choose_lem =
        bit_ext 64 _ _
          (bit_xor-lt 64 (bit_and x y) (bit_and (complement 64 x) z) (bit_and-lt 64 x y x_lt)
            (bit_and-lt 64 (complement 64 x) z (omega arith)))
          (bit_xor-lt 64 z (bit_and x (bit_xor y z)) z_lt (bit_and-lt 64 x (bit_xor y z) x_lt))
          (λ i k.
            unfold xor in
            ground (
              arith,
              bit-xor i (bit_and x y) (bit_and (complement 64 x) z),
              bit-and i x y,
              bit-and i (complement 64 x) z,
              bit-complement 64 x i x_lt,
              bit-xor i z (bit_and x (bit_xor y z)),
              bit-and i x (bit_xor y z),
              bit-xor i y z,
            ))

    pub majority_lem : majority x y z ≡ bit_or (bit_and y z) (bit_and x (bit_xor y z))
    unfolding majority
    majority_lem =
        bit_ext 64 _ _
          (bit_xor-lt 64 (bit_xor (bit_and x y) (bit_and x z)) (bit_and y z)
            (bit_xor-lt 64 (bit_and x y) (bit_and x z) (bit_and-lt 64 x y x_lt)
              (bit_and-lt 64 x z x_lt))
            (bit_and-lt 64 y z y_lt))
          (bit_or-lt 64 (bit_and y z) (bit_and x (bit_xor y z)) (bit_and-lt 64 y z y_lt)
            (bit_and-lt 64 x (bit_xor y z) x_lt))
          (λ i k.
            unfold xor in
            ground (
              arith,
              bit-xor i (bit_xor (bit_and x y) (bit_and x z)) (bit_and y z),
              bit-xor i (bit_and x y) (bit_and x z),
              bit-and i x y,
              bit-and i x z,
              bit-and i y z,
              bit-or i (bit_and y z) (bit_and x (bit_xor y z)),
              bit-and i x (bit_xor y z),
              bit-xor i y z,
            ))
