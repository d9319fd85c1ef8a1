-- ===== src/Gf2x/Word.antt =====
-- `gf2x_mul_1x1` multiplies two words by the schoolbook.
use bike_modify.Base.{
  ℕ, zero, suc, ◌+◌, ◌-◌, ◌*◌, ◌%◌, ◌^◌, ◌≤◌, ◌<◌, ◌≡◌, refl, sym, ap, ap₂, ◌∙◌, arith,
}
use bike_modify.Base.{[], ◌∷◌, get_or, bit_and, bit_xor, for_range_inv, for_range}
use bike_modify.Base.{false, ◌&&◌, xor, ◌==◌, lt_or_le, inl, inr}
use bike_modify.Bits.{
  bit, bit_ext, bit-zero, bit-xor, bit-and, bit-mod-pow, bit-div-pow, bit-lt-pow, bit_cong,
}
use bike_modify.Word.{
  IsWords, bit-lsb_mask, bit_at, ◌>>>◌, shl, shl-lt, bit_xor-lt, bit_and-lt, bit_and-mask,
  div-pow-lt, sub_word,
}
use bike_modify.Poly.{shifted, product}
use bike_modify.Poly.Sum.{xor_assoc, xor_comm, xor-false}
use bike_modify.Poly.Product.{
  product_cong, product_split, product_longer, product_term, product-xor_right, shifted_cong,
}
use bike_modify.Gf2x.{mul_table, mul_digits, mul_last, gf2x_mul_1x1}
use bike_modify.Gf2x.Window.{
  table-lt, window-lt, window_lem, digits, digits_low, digits_high, digits-xor, place,
}

-- The pair of words holds the product of the first `n` digits of `a` and of `b`.
record IsProduct (n a b : ℕ) (lh : ℕ × ℕ) : Type 0 where
  low : lh.0 < 2 ^ 64
  high : lh.1 < 2 ^ 64
  sum : (p : ℕ) → p < 128 → digits lh p ≡ product n (bit a) (bit b) p

module _ (a b0 : ℕ) (room : b0 < 2 ^ 61) where
  -- The first six digits.
  start_lem :
      let second = get_or (mul_table b0) (bit_and (a >>> 3) 7) 0 in
      IsProduct 6 a b0
        (bit_xor (get_or (mul_table b0) (bit_and a 7) 0) (shl 64 second 3), second >>> 61)
  unfolding bit product
  start_lem =
      let u = mul_table b0 in
      let first = get_or u (bit_and a 7) 0 in
      let second = get_or u (bit_and (a >>> 3) 7) 0 in
      let same : a ≡ a >>> 0 = omega arith in
      let first-lt : first < 2 ^ 64 =
        rw (ap (λ t. get_or u (bit_and t 7) 0) same) (table-lt b0 room _ (window-lt b0 room a 0)) in
      let second-lt = table-lt b0 room (bit_and (a >>> 3) 7) (window-lt b0 room a 3) in
      record {
        low = bit_xor-lt 64 first (shl 64 second 3) first-lt (shl-lt 64 second 3);
        high = div-pow-lt 64 second 61 second-lt;
        sum = λ p h.
            ap (λ (t : ℕ). digits (bit_xor first (shl 64 second 3), t) p)
              (sym (zero_xor (second >>> 61) (div-pow-lt 64 second 61 second-lt)))
            ∙ digits-xor first 0 (shl 64 second 3) (second >>> 61) p
            ∙ ap₂ xor
                (alone first p first-lt h
                  ∙ ap (λ t. bit (get_or u (bit_and t 7) 0) p) same
                  ∙ window_lem b0 room a 0 p)
                (place second 3 p (omega arith) (omega arith) second-lt h
                  ∙ shifted_cong 3 _ _ p (window_lem b0 room a 3))
            ∙ sym (product_split 3 3 (bit a) (bit b0) p);
      }
    where
      zero_xor : (x : ℕ) → x < 2 ^ 64 → bit_xor 0 x ≡ x
      zero_xor x h = bit_ext 64 _ _ (bit_xor-lt 64 0 x (omega arith) h) h (λ i k.
          bit-xor i 0 x
          ∙ ap (λ t. xor t (bit x i)) (bit-zero i)
          ∙ xor_comm false (bit x i)
          ∙ xor-false (bit x i))

      alone : (x p : ℕ) → x < 2 ^ 64 → p < 128 → digits (x, 0) p ≡ bit x p
      alone x p k h = elim (lt_or_le p 64) [
        | inl m ↦ digits_low x 0 p m
        | inr m ↦ digits_high x 0 p m h ∙ bit-zero (p - 64) ∙ sym (bit-lt-pow 64 x k p m)
      ]

  -- A round multiplies by six more digits.
  mul_digits_lem :
      (k : ℕ) (lh : ℕ × ℕ)
      → 1 ≤ k
      → k < 11
      → IsProduct (6 * k) a b0 lh
      → IsProduct (6 * (k + 1)) a b0 (mul_digits (mul_table b0) a (6 * k) lh)
  unfolding mul_digits
  mul_digits_lem k lh pos small s =
      let i = 6 * k in
      let u = mul_table b0 in
      let g1 = get_or u (bit_and (a >>> i) 7) 0 in
      let g2 = get_or u (bit_and (a >>> (i + 3)) 7) 0 in
      let g1-lt = table-lt b0 room (bit_and (a >>> i) 7) (window-lt b0 room a i) in
      let g2-lt = table-lt b0 room (bit_and (a >>> (i + 3)) 7) (window-lt b0 room a (i + 3)) in
      record {
        low = bit_xor-lt 64 lh.0 _ s.low (
            bit_xor-lt 64 (shl 64 g1 i) (shl 64 g2 (i + 3)) (shl-lt 64 g1 i)
              (shl-lt 64 g2 (i + 3)));
        high = bit_xor-lt 64 lh.1 _ s.high (
            bit_xor-lt 64 (g1 >>> (64 - i)) (g2 >>> (64 - (i + 3)))
              (div-pow-lt 64 g1 (64 - i) g1-lt) (div-pow-lt 64 g2 (64 - (i + 3)) g2-lt));
        sum = λ p h.
            digits-xor lh.0 lh.1 _ _ p
            ∙ ap₂ xor (s.sum p h) (
                digits-xor (shl 64 g1 i) (g1 >>> (64 - i)) (shl 64 g2 (i + 3))
                  (g2 >>> (64 - (i + 3))) p
                ∙ ap₂ xor
                    (place g1 i p (omega arith) (omega arith) g1-lt h
                      ∙ shifted_cong i _ _ p (window_lem b0 room a i))
                    (place g2 (i + 3) p (omega arith) (omega arith) g2-lt h
                      ∙ shifted_cong (i + 3) _ _ p (window_lem b0 room a (i + 3))))
            ∙ sym (xor_assoc _ _ _)
            ∙ ap (λ t. xor t (shifted (i + 3) (product 3 (λ x. bit a (i + 3 + x)) (bit b0)) p))
                (sym (product_split i 3 (bit a) (bit b0) p))
            ∙ sym (product_split (i + 3) 3 (bit a) (bit b0) p)
            ∙ ap (λ n. product n (bit a) (bit b0) p) {x = i + 3 + 3} {y = 6 * (k + 1)}
                (omega arith);
      }

module _ (b i : ℕ) where
  last_mask : ℕ
  last_mask = sub_word 64 0 (bit_and (b >>> i) 1)

  next_digit : (q : ℕ) → bit (b % 2 ^ (i + 1)) q ≡ xor (bit (b % 2 ^ i) q) (bit b i && (q == i))
  next_digit q =
      bit-mod-pow (i + 1) b q
      ∙ sym (
          ap (λ t. xor t (bit b i && (q == i))) (bit-mod-pow i b q)
          ∙ unfold xor in ground (arith, ap (bit b) {x = q} {y = i}))

  last_mask-bit : (j : ℕ) → j < 64 → bit last_mask j ≡ bit b i
  unfolding last_mask
  last_mask-bit j h =
      let lowest : ((b >>> i) % 2 == 1) ≡ bit (b >>> i) 0 = unfold bit in refl in
      bit-lsb_mask (b >>> i) j h
      ∙ lowest
      ∙ bit-div-pow i b 0
      ∙ bit_cong {x = b} {y = b} {i = i + 0} {j = i} refl (omega arith)

  masked_digits :
      (x y q : ℕ)
      → q < 128
      → digits (bit_and x last_mask, bit_and y last_mask) q ≡ (bit b i && digits (x, y) q)
  masked_digits x y q h = elim (lt_or_le q 64) [
    | inl k ↦
        digits_low _ _ q k ∙ bit-and q x _ ∙ ground (arith, last_mask-bit q k, digits_low x y q k)
    | inr k ↦
        digits_high _ _ q k h
        ∙ bit-and (q - 64) y _
        ∙ ground (arith, last_mask-bit (q - 64) (omega arith), digits_high x y q k h)
  ]

-- Step 3 multiplies by the digits of `b` from 61 on.
mul_last_lem :
    (a b i : ℕ) (lh : ℕ × ℕ)
    → a < 2 ^ 64
    → 0 < i
    → i < 64
    → IsProduct 64 a (b % 2 ^ i) lh
    → IsProduct 64 a (b % 2 ^ (i + 1)) (mul_last a b i lh)
unfolding mul_last last_mask
mul_last_lem a b i lh a-lt pos small s =
    let m = last_mask b i in
    record {
      low = bit_xor-lt 64 lh.0 _ s.low (bit_and-lt 64 (shl 64 a i) m (shl-lt 64 a i));
      high =
          bit_xor-lt 64 lh.1 _ s.high
            (bit_and-lt 64 (a >>> (64 - i)) m (div-pow-lt 64 a (64 - i) a-lt));
      sum = λ p h.
          digits-xor lh.0 lh.1 _ _ p
          ∙ ap₂ xor (s.sum p h) (
              masked_digits b i (shl 64 a i) (a >>> (64 - i)) p h
              ∙ ap (λ t. bit b i && t) (place a i p pos small a-lt h))
          ∙ sym (
              product_cong 64 _ (bit a) _ _ p (λ t k. refl) (next_digit b i)
              ∙ product-xor_right 64 (bit a) (bit (b % 2 ^ i)) (λ q. bit b i && (q == i)) p
              ∙ ap (xor (product 64 (bit a) (bit (b % 2 ^ i)) p))
                  (product_term 64 i (bit b i) (bit a) p (bit-lt-pow 64 a a-lt)));
    }

-- The words that `gf2x_mul_1x1` writes are the product of `a` and `b` as polynomials of 64 terms: the
-- windows of three digits of `a`, and the last three digits of `b`, which the table leaves out, lose
-- nothing.
pub gf2x_mul_1x1_lem :
    (a b : ℕ)
    → a < 2 ^ 64
    → b < 2 ^ 64
    → IsWords 64 (gf2x_mul_1x1 a b)
      × ((p : ℕ) → p < 128 → bit_at (gf2x_mul_1x1 a b) p ≡ product 64 (bit a) (bit b) p)
unfolding gf2x_mul_1x1
gf2x_mul_1x1_lem a b a-lt b-lt =
    let b0 = bit_and b (2 ^ 61 - 1) in
    let same : b0 ≡ b % 2 ^ 61 = bit_and-mask 61 b in
    let room : b0 < 2 ^ 61 = omega (arith, same) in
    let u = mul_table b0 in
    let second = get_or u (bit_and (a >>> 3) 7) 0 in
    let start : ℕ × ℕ = (bit_xor (get_or u (bit_and a 7) 0) (shl 64 second 3), second >>> 61) in
    let windows : IsProduct 66 a b0 (for_range 10 1 (λ k. mul_digits u a (6 * k)) start) =
      for_range_inv (λ k. IsProduct (6 * k) a b0) (λ k. mul_digits u a (6 * k)) 10 1 11 start
        (λ k lh p q s. mul_digits_lem a b0 room k lh p q s) (omega arith) (start_lem a b0 room) in
    let lh = for_range 10 1 (λ k. mul_digits u a (6 * k)) start in
    let whole : IsProduct 64 a (b % 2 ^ 61) lh = record {
      low = windows.low;
      high = windows.high;
      sum = λ p h.
          windows.sum p h
          ∙ product_longer 64 2 (bit a) (bit b0) p (bit-lt-pow 64 a a-lt)
          ∙ ap (λ t. product 64 (bit a) (bit t) p) same;
    } in
    let done : IsProduct 64 a (b % 2 ^ 64) (for_range 3 61 (mul_last a b) lh) =
      for_range_inv (λ i. IsProduct 64 a (b % 2 ^ i)) (mul_last a b) 3 61 64 lh
        (λ i lh p q s. mul_last_lem a b i lh a-lt (omega arith) q s) (omega arith) whole in
    (
      two_words _ _ done.low done.high,
      λ p h.
          done.sum p h
          ∙ ap (λ t. product 64 (bit a) (bit t) p) {x = b % 2 ^ 64} {y = b} (omega arith),
    )
  where
    two_words : (x y : ℕ) → x < 2 ^ 64 → y < 2 ^ 64 → IsWords 64 (x ∷ y ∷ [])
    two_words x y h k zero = h
    two_words x y h k (suc zero) = k
    two_words x y h k (suc (suc i)) = omega arith
