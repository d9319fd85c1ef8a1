-- ===== src/Gf2x/Blocks.antt =====
-- The digits of a product of arrays, from those of the products of the halves.
use bike_modify.Base.{ℕ, ◌+◌, ◌*◌, ◌/◌, ◌%◌, ◌^◌, ◌<◌, ◌≡◌, refl, sym, ap, ap₂, ◌∙◌, arith}
use bike_modify.Base.{List, length, get_or, take, drop, get_or_past}
use bike_modify.Base.{Bool, xor}
use bike_modify.Bits.{bit, bit-xor}
use bike_modify.Word.{IsWords, bit_at, bit_at_cong, bit_xor-lt}
use bike_modify.Poly.{product}
use bike_modify.Poly.Product.{product_cong, product_past}
use bike_modify.Poly.Karatzuba.{block0, block1, block2, block3}
use bike_modify.Gf2x.Parts.{
  by_blocks, at_word, bit_at_past, first_half, second_half, both_halves, first_past, second_past,
}
use bike_modify.Gf2x.Combine.{IsCombined}

-- The `2 * n` words of `res` hold the product of the `n` words of `a` and of `b`.
pub record IsProductOf (n : ℕ) (a b res : List ℕ) : Type 0 where
  pub size : length res ≡ 2 * n
  pub words : IsWords 64 res
  pub sum : (p : ℕ) → bit_at res p ≡ product (64 * n) (bit_at a) (bit_at b) p

pub word_at : (xs : List ℕ) (p : ℕ) → bit (get_or xs (p / 64) 0) (p % 64) ≡ bit_at xs p
unfolding bit_at
word_at xs p = refl

-- The product of the whole arrays, from the products of the halves.
module _ (m : ℕ) (a b aa bb low high middle out : List ℕ) (a_size : length a ≡ 2 * m)
    (b_size : length b ≡ 2 * m) (l : IsProductOf m (take m a) (take m b) low)
    (h : IsProductOf m (drop m a) (drop m b) high) (s : IsProductOf m aa bb middle)
    (aa_sum : (q : ℕ) → bit_at aa q ≡ xor (bit_at (take m a) q) (bit_at (drop m a) q))
    (bb_sum : (q : ℕ) → bit_at bb q ≡ xor (bit_at (take m b) q) (bit_at (drop m b) q))
    (c : IsCombined m low high middle out) where
  out-IsWords : IsWords 64 out
  out-IsWords =
      by_blocks {P = λ i. get_or out i 0 < 2 ^ 64} m (λ i k. rw (c.word0 i k) (l.words i))
        (λ i k. rw (c.word1 i k) (
          bit_xor-lt 64 _ _ (s.words i)
            (bit_xor-lt 64 _ _ (l.words i) (bit_xor-lt 64 _ _ (l.words (m + i)) (h.words i)))))
        (λ i k. rw (c.word2 i k) (
          bit_xor-lt 64 _ _ (s.words (m + i)) (
            bit_xor-lt 64 _ _ (h.words (m + i)) (bit_xor-lt 64 _ _ (l.words (m + i)) (h.words i)))))
        (λ i k. rw (c.word3 i k) (h.words (m + i)))
        (λ i k. rw (get_or_past out i 0 (omega (arith, c.size))) (omega arith))

  whole : ℕ → Bool
  whole = product (64 * m + 64 * m) (bit_at a) (bit_at b)

  part0 : (p : ℕ) → p < 64 * m → bit_at out p ≡ whole p
  unfolding whole
  part0 p k =
      bit_at_cong out {p = p} {q = 64 * 0 + p} (omega arith)
      ∙ at_word out 0 p
      ∙ ap (λ t. bit t (p % 64))
          (ap (λ t. get_or out t 0) {x = 0 + p / 64} {y = p / 64} (omega arith)
            ∙ c.word0 (p / 64) (omega arith))
      ∙ word_at low p
      ∙ l.sum p
      ∙ block0 (64 * m) (bit_at a) (bit_at (take m a)) (bit_at (drop m a)) (bit_at b)
          (bit_at (take m b)) (bit_at (drop m b)) (first_half m a a_size)
          (λ i k. second_half m a a_size i) (both_halves m b b_size) (first_past m b b_size)
          (second_past m b b_size) p k

  middle_lem :
      (p : ℕ)
      → bit_at middle p
        ≡ product
            (64 * m)
            (λ i. xor (bit_at (take m a) i) (bit_at (drop m a) i))
            (λ q. xor (bit_at (take m b) q) (bit_at (drop m b) q))
            p
  middle_lem p = s.sum p ∙ product_cong (64 * m) _ _ _ _ p (λ i k. aa_sum i) bb_sum

  part1 : (p : ℕ) → p < 64 * m → bit_at out (64 * m + p) ≡ whole (64 * m + p)
  unfolding whole
  part1 p k =
      at_word out m p
      ∙ ap (λ t. bit t (p % 64)) (c.word1 (p / 64) (omega arith))
      ∙ bit-xor (p % 64) _ _
      ∙ ap₂ xor (word_at middle p ∙ middle_lem p) (
          bit-xor (p % 64) _ _
          ∙ ap₂ xor (word_at low p ∙ l.sum p) (
              bit-xor (p % 64) _ _
              ∙ ap₂ xor (sym (at_word low m p) ∙ l.sum (64 * m + p)) (word_at high p ∙ h.sum p)))
      ∙ block1 (64 * m) (bit_at a) (bit_at (take m a)) (bit_at (drop m a)) (bit_at b)
          (bit_at (take m b)) (bit_at (drop m b)) (first_half m a a_size)
          (λ i k. second_half m a a_size i) (both_halves m b b_size) (first_past m b b_size)
          (second_past m b b_size) p k

  part2 : (p : ℕ) → p < 64 * m → bit_at out (2 * (64 * m) + p) ≡ whole (2 * (64 * m) + p)
  unfolding whole
  part2 p k =
      bit_at_cong out {p = 2 * (64 * m) + p} {q = 64 * (2 * m) + p} (omega arith)
      ∙ at_word out (2 * m) p
      ∙ ap (λ t. bit t (p % 64)) (c.word2 (p / 64) (omega arith))
      ∙ bit-xor (p % 64) _ _
      ∙ ap₂ xor (sym (at_word middle m p) ∙ middle_lem (64 * m + p)) (
          bit-xor (p % 64) _ _
          ∙ ap₂ xor (sym (at_word high m p) ∙ h.sum (64 * m + p)) (
              bit-xor (p % 64) _ _
              ∙ ap₂ xor (sym (at_word low m p) ∙ l.sum (64 * m + p)) (word_at high p ∙ h.sum p)))
      ∙ block2 (64 * m) (bit_at a) (bit_at (take m a)) (bit_at (drop m a)) (bit_at b)
          (bit_at (take m b)) (bit_at (drop m b)) (first_half m a a_size)
          (λ i k. second_half m a a_size i) (both_halves m b b_size) (first_past m b b_size)
          (second_past m b b_size) p k

  part3 : (p : ℕ) → p < 64 * m → bit_at out (3 * (64 * m) + p) ≡ whole (3 * (64 * m) + p)
  unfolding whole
  part3 p k =
      bit_at_cong out {p = 3 * (64 * m) + p} {q = 64 * (3 * m) + p} (omega arith)
      ∙ at_word out (3 * m) p
      ∙ ap (λ t. bit t (p % 64)) (c.word3 (p / 64) (omega arith))
      ∙ sym (at_word high m p)
      ∙ h.sum (64 * m + p)
      ∙ block3 (64 * m) (bit_at a) (bit_at (take m a)) (bit_at (drop m a)) (bit_at b)
          (bit_at (take m b)) (bit_at (drop m b)) (first_half m a a_size)
          (λ i k. second_half m a a_size i) (both_halves m b b_size) (first_past m b b_size)
          (second_past m b b_size) p k

  pub whole_lem : IsProductOf (2 * m) a b out
  unfolding whole
  whole_lem = record {
    size = omega (arith, c.size);
    words = out-IsWords;
    sum = λ p.
        by_blocks {P = λ p. bit_at out p ≡ whole p} (64 * m) part0 part1 part2 part3
          (λ p k.
            bit_at_past out p (omega (arith, c.size))
            ∙ sym (
                product_past (64 * m + 64 * m) (64 * (2 * m)) (bit_at a) (bit_at b) p
                  (λ q g. bit_at_past b q (omega (arith, b_size))) (omega arith)))
          p
        ∙ ap (λ n. product n (bit_at a) (bit_at b) p) {x = 64 * m + 64 * m} {y = 64 * (2 * m)}
            (omega arith);
  }
