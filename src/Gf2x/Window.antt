-- ===== src/Gf2x/Window.antt =====
-- The table of `gf2x_mul_1x1`, and pairs of words as strings of digits.
use bike_modify.Base.{
  ℕ, zero, suc, ◌+◌, ◌-◌, ◌/◌, ◌%◌, ◌^◌, ◌≤◌, ◌<◌, ◌≡◌, refl, sym, ap, ap₂, ◌∙◌, arith,
}
use bike_modify.Base.{[], ◌∷◌, get_or, bit_and, bit_xor}
use bike_modify.Base.{Bool, false, ◌&&◌, xor, lt_or_le, inl, inr, le→ltb}
use bike_modify.Bits.{bit, bit-zero, bit-xor, bit-mod-pow, bit-div-pow, bit-lt-pow, bit_cong}
use bike_modify.Word.{bit_at, ◌>>>◌, shl, bit-shl, shl-lt, bit_xor-lt, bit_and-mask}
use bike_modify.Poly.{shifted, product, xor_sum}
use bike_modify.Poly.Sum.{xor-false}
use bike_modify.Poly.Product.{product_cong, product_past}
use bike_modify.Gf2x.{mul_table}

-- A word shifted to the left by one, without the digit that falls out.
double : (x j : ℕ) → j < 64 → bit (shl 64 x 1) j ≡ shifted 1 (bit x) j
double x j h = bit-shl 64 x 1 j h

-- The product of a number of three digits.
three : (v j : ℕ) (g : ℕ → Bool) → Bool
three v j g =
    xor (xor (bit v 0 && shifted 0 g j) (bit v 1 && shifted 1 g j)) (bit v 2 && shifted 2 g j)

product-three :
    (f g : ℕ → Bool) (j : ℕ)
    → product 3 f g j
      ≡ xor (xor (f 0 && shifted 0 g j) (f 1 && shifted 1 g j)) (f 2 && shifted 2 g j)
unfolding product xor_sum xor
product-three f g j = ground arith

-- The entries of the table, digit by digit.
module _ (b0 j : ℕ) (h : j < 64) where
  u2-bit : bit (shl 64 b0 1) j ≡ shifted 1 (bit b0) j
  u2-bit = double b0 j h

  u4-bit : bit (shl 64 (shl 64 b0 1) 1) j ≡ shifted 2 (bit b0) j
  u4-bit =
      double (shl 64 b0 1) j h
      ∙ ground (
        arith,
        double b0 (j - 1) (omega arith),
        bit_cong {x = b0} {y = b0} {i = j - 1 - 1} {j = j - 2} refl (omega arith),
      )

  u6-bit :
      bit (shl 64 (bit_xor (shl 64 b0 1) b0) 1) j
      ≡ xor (shifted 2 (bit b0) j) (shifted 1 (bit b0) j)
  unfolding xor
  u6-bit =
      double (bit_xor (shl 64 b0 1) b0) j h
      ∙ ground (
        arith,
        bit-xor (j - 1) (shl 64 b0 1) b0,
        double b0 (j - 1) (omega arith),
        bit_cong {x = b0} {y = b0} {i = j - 1 - 1} {j = j - 2} refl (omega arith),
      )

  table_low : (v : ℕ) → v < 8 → bit (get_or (mul_table b0) v 0) j ≡ product 3 (bit v) (bit b0) j
  unfolding mul_table bit xor
  table_low zero k = bit-zero j ∙ ground (arith, product-three (bit 0) (bit b0) j)
  table_low (suc zero) k = ground (arith, product-three (bit 1) (bit b0) j)
  table_low (suc (suc zero)) k = u2-bit ∙ ground (arith, product-three (bit 2) (bit b0) j)
  table_low (suc (suc (suc zero))) k =
      bit-xor j _ _ ∙ ground (arith, u2-bit, product-three (bit 3) (bit b0) j)
  table_low (suc (suc (suc (suc zero)))) k =
      u4-bit ∙ ground (arith, product-three (bit 4) (bit b0) j)
  table_low (suc (suc (suc (suc (suc zero))))) k =
      bit-xor j _ _ ∙ ground (arith, u4-bit, product-three (bit 5) (bit b0) j)
  table_low (suc (suc (suc (suc (suc (suc zero)))))) k =
      u6-bit ∙ ground (arith, product-three (bit 6) (bit b0) j)
  table_low (suc (suc (suc (suc (suc (suc (suc zero))))))) k =
      bit-xor j _ _ ∙ ground (arith, u6-bit, product-three (bit 7) (bit b0) j)
  table_low (suc (suc (suc (suc (suc (suc (suc (suc v)))))))) k = absurd (omega arith)

module _ (b0 : ℕ) (room : b0 < 2 ^ 61) where
  pub table-lt : (v : ℕ) → v < 8 → get_or (mul_table b0) v 0 < 2 ^ 64
  unfolding mul_table
  table-lt zero k = omega arith
  table-lt (suc zero) k = omega arith
  table-lt (suc (suc zero)) k = shl-lt 64 b0 1
  table-lt (suc (suc (suc zero))) k = bit_xor-lt 64 _ b0 (shl-lt 64 b0 1) (omega arith)
  table-lt (suc (suc (suc (suc zero)))) k = shl-lt 64 (shl 64 b0 1) 1
  table-lt (suc (suc (suc (suc (suc zero))))) k =
      bit_xor-lt 64 _ b0 (shl-lt 64 (shl 64 b0 1) 1) (omega arith)
  table-lt (suc (suc (suc (suc (suc (suc zero)))))) k = shl-lt 64 (bit_xor (shl 64 b0 1) b0) 1
  table-lt (suc (suc (suc (suc (suc (suc (suc zero))))))) k =
      bit_xor-lt 64 _ b0 (shl-lt 64 (bit_xor (shl 64 b0 1) b0) 1) (omega arith)
  table-lt (suc (suc (suc (suc (suc (suc (suc (suc v)))))))) k = absurd (omega arith)

  table_lem : (v j : ℕ) → v < 8 → bit (get_or (mul_table b0) v 0) j ≡ product 3 (bit v) (bit b0) j
  table_lem v j k = elim (lt_or_le j 64) [
    | inl h ↦ table_low b0 j h v k
    | inr h ↦
        bit-lt-pow 64 (get_or (mul_table b0) v 0) (table-lt v k) j h
        ∙ sym (product_past 3 61 (bit v) (bit b0) j (bit-lt-pow 61 b0 room) (omega arith))
  ]

  -- The entry that a round reads for the three digits of `a` from `i` on.
  pub window-lt : (a i : ℕ) → bit_and (a >>> i) 7 < 8
  window-lt a i = omega (arith, bit_and-mask 3 (a >>> i))

  pub window_lem :
      (a i j : ℕ)
      → bit (get_or (mul_table b0) (bit_and (a >>> i) 7) 0) j
        ≡ product 3 (λ t. bit a (i + t)) (bit b0) j
  window_lem a i j =
      table_lem (bit_and (a >>> i) 7) j (window-lt a i)
      ∙ product_cong 3 _ _ (bit b0) (bit b0) j
          (λ t h.
            ap (λ x. bit x t) (bit_and-mask 3 (a >>> i))
            ∙ bit-mod-pow 3 (a >>> i) t
            ∙ ground (arith, bit-div-pow i a t))
          (λ q. refl)

-- The two words of a product as one string of digits.
abbrev pub digits : ℕ × ℕ → ℕ → Bool
digits lh p = bit_at (lh.0 ∷ lh.1 ∷ []) p

pub digits_low : (l h p : ℕ) → p < 64 → digits (l, h) p ≡ bit l p
unfolding bit_at
digits_low l h p k =
    bit_cong {i = p % 64} {j = p}
      (ap (λ t. get_or (l ∷ h ∷ []) t 0) {x = p / 64} {y = 0} (omega arith)) (omega arith)

pub digits_high : (l h p : ℕ) → 64 ≤ p → p < 128 → digits (l, h) p ≡ bit h (p - 64)
unfolding bit_at
digits_high l h p k m =
    bit_cong {i = p % 64} {j = p - 64}
      (ap (λ t. get_or (l ∷ h ∷ []) t 0) {x = p / 64} {y = 1} (omega arith)) (omega arith)

pub digits-xor :
    (l h l' h' p : ℕ)
    → digits (bit_xor l l', bit_xor h h') p ≡ xor (digits (l, h) p) (digits (l', h') p)
unfolding bit_at
digits-xor l h l' h' p = word (p / 64)
  where
    word :
        (i : ℕ)
        → bit (get_or (bit_xor l l' ∷ bit_xor h h' ∷ []) i 0) (p % 64)
          ≡ xor (bit (get_or (l ∷ h ∷ []) i 0) (p % 64)) (bit (get_or (l' ∷ h' ∷ []) i 0) (p % 64))
    word zero = bit-xor (p % 64) l l'
    word (suc zero) = bit-xor (p % 64) h h'
    word (suc (suc i)) =
        bit-zero (p % 64) ∙ sym (ap₂ xor (bit-zero (p % 64)) (bit-zero (p % 64)) ∙ xor-false false)

-- `(g << i, g >> (w - i))` is `g` from digit `i` on.
pub place :
    (g i p : ℕ)
    → 0 < i
    → i < 64
    → g < 2 ^ 64
    → p < 128
    → digits (shl 64 g i, g >>> (64 - i)) p ≡ shifted i (bit g) p
place g i p pos small room h = elim (lt_or_le p 64) [
  | inl k ↦ digits_low (shl 64 g i) (g >>> (64 - i)) p k ∙ bit-shl 64 g i p k
  | inr k ↦
      digits_high (shl 64 g i) (g >>> (64 - i)) p k h
      ∙ bit-div-pow (64 - i) g (p - 64)
      ∙ rw (le→ltb p i (omega arith))
          (bit_cong {x = g} {y = g} {i = 64 - i + (p - 64)} {j = p - i} refl (omega arith))
]
