-- ===== src/Gf2x/Combine.antt =====
-- How a round of `karatzuba` puts three products together, word by word.
use bike_modify.Base.{ℕ, ◌+◌, ◌*◌, ◌<◌, ◌≡◌, sym, ap, ap₂, ◌∙◌, arith}
use bike_modify.Base.{
  List, ◌++◌, length, get_or, take, drop, get_or-take, get_or-drop, length-take, length-drop,
  length-append, get_or-append_first, get_or-append_second, bit_xor,
}
use bike_modify.Gf2x.{karatzuba_add1, karatzuba_add2}
use bike_modify.Gf2x.Halves.{
  tmp_lem, length-karatzuba_add2, karatzuba_add2_first, karatzuba_add2_second, karatzuba_add2_third,
  karatzuba_add2_last,
}

-- The words of the result, from those of the low, the high and the middle product.
pub record IsCombined (m : ℕ) (low high middle out : List ℕ) : Type 0 where
  pub size : length out ≡ 4 * m
  pub word0 : (i : ℕ) → i < m → get_or out i 0 ≡ get_or low i 0
  pub word1 :
      (i : ℕ)
      → i < m
      → get_or out (m + i) 0
        ≡ bit_xor
            (get_or middle i 0)
            (bit_xor (get_or low i 0) (bit_xor (get_or low (m + i) 0) (get_or high i 0)))
  pub word2 :
      (i : ℕ)
      → i < m
      → get_or out (2 * m + i) 0
        ≡ bit_xor
            (get_or middle (m + i) 0)
            (bit_xor (get_or high (m + i) 0) (bit_xor (get_or low (m + i) 0) (get_or high i 0)))
  pub word3 : (i : ℕ) → i < m → get_or out (3 * m + i) 0 ≡ get_or high (m + i) 0

-- The last part of a round: the three products of `m` words are put together.
module _ (m : ℕ) (a b low high middle : List ℕ) (low_size : length low ≡ 2 * m)
    (high_size : length high ≡ 2 * m) (middle_size : length middle ≡ 2 * m) where
  tmp : List ℕ
  tmp = (karatzuba_add1 (low ++ high) a b m).2

  res : List ℕ
  res = take m low ++ (middle ++ drop m high)

  low_length : length (take m low) ≡ m
  low_length = omega (arith, length-take m low, low_size)

  length-res : length res ≡ 4 * m
  unfolding res
  length-res = omega (
    arith,
    length-append (take m low) (middle ++ drop m high),
    length-append middle (drop m high),
    low_length,
    middle_size,
    length-drop m high,
    high_size,
  )

  res-low : (i : ℕ) → i < m → get_or res i 0 ≡ get_or low i 0
  unfolding res
  res-low i k =
      get_or-append_first (take m low) _ i 0 (omega (arith, low_length)) ∙ get_or-take m low i 0 k

  res-middle : (i : ℕ) → i < 2 * m → get_or res (m + i) 0 ≡ get_or middle i 0
  unfolding res
  res-middle i k =
      ap (λ t. get_or (take m low ++ (middle ++ drop m high)) (t + i) 0) (sym low_length)
      ∙ get_or-append_second (take m low) (middle ++ drop m high) i 0
      ∙ get_or-append_first middle (drop m high) i 0 (omega (arith, middle_size))

  res-high : (i : ℕ) → get_or res (3 * m + i) 0 ≡ get_or high (m + i) 0
  unfolding res
  res-high i =
      ap (λ t. get_or (take m low ++ (middle ++ drop m high)) t 0) {x = 3 * m + i}
        {y = length (take m low) + (length middle + i)} (omega (arith, low_length, middle_size))
      ∙ get_or-append_second (take m low) (middle ++ drop m high) (length middle + i) 0
      ∙ get_or-append_second middle (drop m high) i 0
      ∙ get_or-drop m high i 0

  tmp_word : (i : ℕ) → i < m → get_or tmp i 0 ≡ bit_xor (get_or low (m + i) 0) (get_or high i 0)
  unfolding tmp
  tmp_word i k =
      tmp_lem (low ++ high) a b m i k
      ∙ ap₂ bit_xor (get_or-append_first low high (m + i) 0 (omega (arith, low_size))) (
          ap (λ t. get_or (low ++ high) (t + i) 0) (sym low_size)
          ∙ get_or-append_second low high i 0)

  pub combine_lem : IsCombined m low high middle (
      karatzuba_add2
        (take m low ++ (middle ++ drop m high))
        (karatzuba_add1 (low ++ high) a b m).2
        m)
  unfolding res tmp
  combine_lem = record {
    size = length-karatzuba_add2 res tmp m length-res;
    word0 = λ i k. karatzuba_add2_first res tmp m length-res i k ∙ res-low i k;
    word1 = λ i k.
        karatzuba_add2_second res tmp m length-res i k
        ∙ ap₂ bit_xor (res-middle i (omega arith)) (ap₂ bit_xor (res-low i k) (tmp_word i k));
    word2 = λ i k.
        karatzuba_add2_third res tmp m length-res i k
        ∙ ap₂ bit_xor
            (ap (λ t. get_or res t 0) {x = 2 * m + i} {y = m + (m + i)} (omega arith)
              ∙ res-middle (m + i) (omega arith))
            (ap₂ bit_xor (res-high i) (tmp_word i k));
    word3 = λ i k. karatzuba_add2_last res tmp m length-res i k ∙ res-high i;
  }
