-- ===== src/Utilities/Weight.antt =====
-- The weight of a vector counts its digits that are set.
use bike_modify.Base.{
  ℕ, zero, suc, ◌+◌, ◌-◌, ◌*◌, ◌/◌, ◌%◌, ◌^◌, ◌≤◌, ◌<◌, ◌≡◌, refl, sym, ap, ap₂, ◌∙◌, arith,
}
use bike_modify.Base.{
  List, get_or, Bool, to_nat, for_range, for_range_inv, bit_and, ◌&&◌, ltb, ◌==◌, lt_or_le, le→ltb,
  inl, inr,
}
use mathlib.Core.Bool.{and-false}
use bike_modify.Bits.{bit, bit_cong, bit-and}
use bike_modify.Word.{bit-ones}
use bike_modify.Bytes.{byte_bit}
use bike_modify.Params.{Level, r_bits, r_size, last_r_byte_mask, last_r_byte_lead, layout}
use bike_modify.Utilities.{popcount, r_bits_vector_weight}

-- How many of the first `n` places are set.
abbrev pub ones : (ℕ → Bool) → ℕ → ℕ
ones f zero = 0
ones f (suc n) = ones f n + to_nat (f n)

pub ones_cong : (f g : ℕ → Bool) (n : ℕ) → ((i : ℕ) → i < n → f i ≡ g i) → ones f n ≡ ones g n
ones_cong f g zero h = refl
ones_cong f g (suc n) h =
    ap₂ ◌+◌ (ones_cong f g n (λ i l. h i (omega arith))) (ap to_nat (h n (omega arith)))

pub ones-le : (f : ℕ → Bool) (n : ℕ) → ones f n ≤ n
ones-le f zero = omega arith
ones-le f (suc n) = ground (arith, ones-le f n)

pub ones_add : (f : ℕ → Bool) (m n : ℕ) → ones f (m + n) ≡ ones f m + ones (λ i. f (m + i)) n
ones_add f m zero = ap (ones f) {x = m + 0} {y = m} (omega arith) ∙ omega arith
ones_add f m (suc n) =
    ap (ones f) {x = m + suc n} {y = suc (m + n)} (omega arith) ∙ omega (arith, ones_add f m n)

pub ones_first : (f : ℕ → Bool) (n : ℕ) → ones f (suc n) ≡ to_nat (f 0) + ones (λ i. f (suc i)) n
ones_first f zero = omega arith
ones_first f (suc n) = omega (arith, ones_first f n)

popcount_lem : (w x : ℕ) → popcount w x ≡ ones (bit x) w
unfolding popcount bit
popcount_lem zero x = refl
popcount_lem (suc w) x = ap₂ ◌+◌ (odd x) (popcount_lem w (x / 2)) ∙ sym (ones_first (bit x) w)
  where
    odd : (y : ℕ) → y % 2 ≡ to_nat (y % 2 == 1)
    odd y = ground arith

-- The digits below `k` of a masked byte.
ones_masked : (x k n : ℕ) → k ≤ n → ones (λ i. bit x i && ltb i k) n ≡ ones (bit x) k
ones_masked x k zero h = ap (ones (bit x)) {x = 0} {y = k} (omega arith)
ones_masked x k (suc n) h = elim (lt_or_le n k) [
  | inl l ↦
      ones_cong (λ i. bit x i && ltb i k) (bit x) (suc n) (λ i m. ground (arith))
      ∙ ap (ones (bit x)) {x = suc n} {y = k} (omega arith)
  | inr g ↦ omega (
    arith,
    ones_masked x k n g,
    ap to_nat (ap (λ t. bit x n && t) (le→ltb n k g) ∙ and-false (bit x n)),
  )
]

-- The weight is the number of the digits below `R_BITS` that are set: the padding of the last
-- byte does not count.
pub r_bits_vector_weight_lem :
    (l : Level) (raw : List ℕ) → r_bits_vector_weight l raw ≡ ones (byte_bit raw) (r_bits l)
unfolding r_bits_vector_weight last_r_byte_mask
r_bits_vector_weight_lem l raw = omega (
  arith,
  whole_bytes,
  popcount_lem 8 (bit_and (get_or raw (r_size l - 1) 0) (2 ^ last_r_byte_lead l - 1)),
  last_byte,
  ones_add (byte_bit raw) (8 * (r_size l - 1)) (last_r_byte_lead l),
  ap (ones (byte_bit raw)) {x = 8 * (r_size l - 1) + last_r_byte_lead l} {y = r_bits l}
      (omega (arith, layout l)),
)
  where
    byte_ones :
        (j k : ℕ) → k ≤ 8 → ones (λ i. byte_bit raw (8 * j + i)) k ≡ ones (bit (get_or raw j 0)) k
    byte_ones j k h = ones_cong _ _ k λ i l.
        unfold byte_bit in
        bit_cong {i = (8 * j + i) % 8} {j = i}
          (ap (λ t. get_or raw t 0) {x = (8 * j + i) / 8} {y = j} (omega arith)) (omega arith)

    whole_bytes :
        for_range (r_size l - 1) 0 (λ i acc. acc + popcount 8 (get_or raw i 0)) 0
        ≡ ones (byte_bit raw) (8 * (r_size l - 1))
    whole_bytes =
        for_range_inv (λ i acc. acc ≡ ones (byte_bit raw) (8 * i))
          (λ i acc. acc + popcount 8 (get_or raw i 0)) (r_size l - 1) 0 (r_size l - 1) 0
          (λ k acc p q e. omega (
            arith,
            e,
            popcount_lem 8 (get_or raw k 0),
            byte_ones k 8 (omega arith),
            ones_add (byte_bit raw) (8 * k) 8,
            ap (ones (byte_bit raw)) {x = 8 * k + 8} {y = 8 * (k + 1)} (omega arith),
          ))
          (omega arith) refl

    last_byte :
        ones (bit (bit_and (get_or raw (r_size l - 1) 0) (2 ^ last_r_byte_lead l - 1))) 8
        ≡ ones (λ i. byte_bit raw (8 * (r_size l - 1) + i)) (last_r_byte_lead l)
    last_byte =
        let x = get_or raw (r_size l - 1) 0 in
        let k = last_r_byte_lead l in
        ones_cong _ _ 8 (λ i h. bit-and i x (2 ^ k - 1) ∙ ap (λ t. bit x i && t) (bit-ones k i))
        ∙ ones_masked x k 8 (omega (arith, layout l))
        ∙ sym (byte_ones (r_size l - 1) k (omega (arith, layout l)))
