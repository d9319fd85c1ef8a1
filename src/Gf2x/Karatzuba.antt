-- ===== src/Gf2x/Karatzuba.antt =====
-- `karatzuba` multiplies polynomials of a power of two of words.
use bike_modify.Base.{ℕ, zero, suc, ◌*◌, ◌/◌, ◌%◌, ◌^◌, ◌≤◌, ◌<◌, ◌≡◌, refl, sym, ap, ◌∙◌, arith}
use bike_modify.Base.{List, ◌++◌, length, get_or, take, drop}
use bike_modify.Base.{false, ◌==◌, lt_or_le, inl, inr}
use bike_modify.Bits.{bit, bit_cong, bit-lt-pow}
use bike_modify.Word.{IsWords, bit_at, ◌>>>◌}
use native.Mathlib.Nat.{one-le-pow}
use bike_modify.Poly.Product.{product_cong, product_past}
use bike_modify.Gf2x.{gf2x_mul_1x1, karatzuba, karatzuba_add1, karatzuba_add2}
use bike_modify.Gf2x.Word.{gf2x_mul_1x1_lem}
use bike_modify.Gf2x.Halves.{alah_lem, blbh_lem, length-karatzuba_add1}
use bike_modify.Gf2x.Parts.{
  bit_at_past, take-IsWords, drop-IsWords, length-half, length-rest, sum_of_halves, sum-IsWords,
}
use bike_modify.Gf2x.Combine.{combine_lem}
use bike_modify.Gf2x.Blocks.{IsProductOf, word_at, whole_lem}

-- One word.
one_word :
    (xs : List ℕ) → length xs ≡ 1 → IsWords 64 xs → (q : ℕ) → bit_at xs q ≡ bit (get_or xs 0 0) q
one_word xs len words q = elim (lt_or_le q 64) [
  | inl h ↦
      sym (word_at xs q)
      ∙ bit_cong {i = q % 64} {j = q} (ap (λ t. get_or xs t 0) {x = q / 64} {y = 0} (omega arith))
          (omega arith)
  | inr g ↦
      bit_at_past xs q (omega (arith, len)) ∙ sym (bit-lt-pow 64 (get_or xs 0 0) (words 0) q g)
]

-- A round whose three calls multiply halves of `m` words.
module _ (rounds m : ℕ) (a b : List ℕ) (pos : 1 ≤ m) (sa : length a ≡ 2 * m) (sb : length b ≡ 2 * m)
    (wa : IsWords 64 a) (wb : IsWords 64 b)
    (ih : (x y : List ℕ)
      → length x ≡ m
      → length y ≡ m
      → IsWords 64 x
      → IsWords 64 y
      → IsProductOf m x y (karatzuba rounds x y m)) where
  round_with :
      (half : ℕ)
      → half ≡ m
      → IsProductOf (2 * m) a b (
          let low = karatzuba rounds (take half a) (take half b) half in
          let high = karatzuba rounds (drop half a) (drop half b) half in
          let (alah, blbh, tmp) = karatzuba_add1 (low ++ high) a b half in
          let mid = karatzuba rounds alah blbh half in
          karatzuba_add2 (take half low ++ (mid ++ drop half high)) tmp half)
  round_with half e = rw e (
      let low = karatzuba rounds (take m a) (take m b) m in
      let high = karatzuba rounds (drop m a) (drop m b) m in
      let aa = (karatzuba_add1 (low ++ high) a b m).0 in
      let bb = (karatzuba_add1 (low ++ high) a b m).1 in
      let len = length-karatzuba_add1 (low ++ high) a b m in
      let aa_lem = alah_lem (low ++ high) a b m in
      let bb_lem = blbh_lem (low ++ high) a b m in
      let l =
        ih (take m a) (take m b) (length-half m a sa) (length-half m b sb) (take-IsWords 64 m a wa)
          (take-IsWords 64 m b wb) in
      let h =
        ih (drop m a) (drop m b) (length-rest m a sa) (length-rest m b sb) (drop-IsWords 64 m a wa)
          (drop-IsWords 64 m b wb) in
      let s =
        ih aa bb len.0 len.1 (sum-IsWords m a sa aa len.0 aa_lem wa)
          (sum-IsWords m b sb bb len.1 bb_lem wb) in
      whole_lem m a b aa bb low high (karatzuba rounds aa bb m) _ sa sb l h s
        (sum_of_halves m a sa aa len.0 aa_lem) (sum_of_halves m b sb bb len.1 bb_lem)
        (combine_lem m a b low high (karatzuba rounds aa bb m) l.size h.size s.size))

  round_lem : IsProductOf (2 * m) a b (karatzuba (suc rounds) a b (2 * m))
  unfolding karatzuba
  round_lem =
      let more : (1 == 2 * m) ≡ false = ground arith in
      rw (karatzuba, more) (round_with ((2 * m) >>> 1) (omega arith))

-- With operands of `2^k` words and more than `k` rounds, `karatzuba` writes the product of the
-- operands: `2^(k+1)` words whose digits are those of the product of the polynomials, term by term.
pub karatzuba_lem :
    (rounds k : ℕ) (a b : List ℕ)
    → k < rounds
    → length a ≡ 2 ^ k
    → length b ≡ 2 ^ k
    → IsWords 64 a
    → IsWords 64 b
    → IsProductOf (2 ^ k) a b (karatzuba rounds a b (2 ^ k))
unfolding karatzuba
karatzuba_lem zero k a b room sa sb wa wb = absurd (omega arith)
karatzuba_lem (suc rounds) zero a b room sa sb wa wb =
    let one = gf2x_mul_1x1_lem (get_or a 0 0) (get_or b 0 0) (wa 0) (wb 0) in
    record {
      size = unfold gf2x_mul_1x1 in refl;
      words = one.0;
      sum = λ p. elim (lt_or_le p 128) [
        | inl h ↦
            one.1 p h
            ∙ sym (product_cong 64 _ _ _ _ p (λ i l. one_word a sa wa i) (one_word b sb wb))
        | inr g ↦
            bit_at_past (gf2x_mul_1x1 (get_or a 0 0) (get_or b 0 0)) p
              (unfold gf2x_mul_1x1 in omega arith)
            ∙ sym (
                product_past 64 64 (bit_at a) (bit_at b) p
                  (λ q l. bit_at_past b q (omega (arith, sb))) (omega arith))
      ];
    }
karatzuba_lem (suc rounds) (suc k) a b room sa sb wa wb =
    let twice : 2 ^ suc k ≡ 2 * 2 ^ k = omega arith in
    rw twice (
      round_lem rounds (2 ^ k) a b (one-le-pow k 2 (omega arith)) (sa ∙ twice) (sb ∙ twice) wa wb
        (λ x y sx sy wx wy. karatzuba_lem rounds k x y (omega arith) sx sy wx wy))
