-- ===== src/Gf2x.antt =====
-- gf2x/gf2x.h, gf2x/gf2x_mul.c and gf2x/gf2x_portable.c: polynomials over two elements, as arrays of
-- words. The result of a multiplication is written whole, so that it does not depend on what the
-- arrays held before; the secure buffer holds the intermediate arrays, which are lists here.
pub mod Reduce
pub mod Add
pub mod Window
pub mod Word
pub mod Halves
pub mod Parts
pub mod Combine
pub mod Blocks
pub mod Karatzuba
pub mod Cyclic
use bike_modify.Base.{ℕ, zero, suc, ◌+◌, ◌-◌, ◌*◌, ◌/◌, ◌%◌, ◌^◌, bit_and, bit_or, bit_xor}
use bike_modify.Base.{
  List, [], ◌∷◌, ◌++◌, get_or, set, take, drop, replicate, fill, for_range, true, false, ◌==◌,
}
use bike_modify.Word.{◌>>>◌, shl, sub_word}
use bike_modify.Params.{Level, r_qw, r_padded_qw, last_r_qw_lead, last_r_qw_trail, last_r_qw_mask}

-- `gf2x_add` of gf2x/gf2x.h. `res` may be one of the two operands: each round reads only the byte
-- that it writes.
unfoldable pub gf2x_add : List ℕ → List ℕ → List ℕ → ℕ → List ℕ
gf2x_add res a b bytelen = fill bytelen 0 (λ i r. bit_xor (get_or a i 0) (get_or b i 0)) res

-- Step 1 of `gf2x_mul_1x1`: the products of `b0` and the polynomials of three digits.
unfoldable pub mul_table : ℕ → List ℕ
mul_table b0 =
    let u2 = shl 64 b0 1 in
    let u3 = bit_xor u2 b0 in
    let u4 = shl 64 u2 1 in
    let u5 = bit_xor u4 b0 in
    let u6 = shl 64 u3 1 in let u7 = bit_xor u6 b0 in 0 ∷ b0 ∷ u2 ∷ u3 ∷ u4 ∷ u5 ∷ u6 ∷ u7 ∷ []

-- Step 2: the round for the digits from `i` on, with `s` 3 and `w` 64. The pair is `l` and `h`.
unfoldable pub mul_digits : List ℕ → ℕ → ℕ → ℕ × ℕ → ℕ × ℕ
mul_digits u a i lh =
    let g1 = get_or u (bit_and (a >>> i) 7) 0 in
    let g2 = get_or u (bit_and (a >>> (i + 3)) 7) 0 in
    (
      bit_xor lh.0 (bit_xor (shl 64 g1 i) (shl 64 g2 (i + 3))),
      bit_xor lh.1 (bit_xor (g1 >>> (64 - i)) (g2 >>> (64 - (i + 3)))),
    )

-- Step 3: the round for digit `i` of `b`.
unfoldable pub mul_last : ℕ → ℕ → ℕ → ℕ × ℕ → ℕ × ℕ
mul_last a b i lh =
    let mask = sub_word 64 0 (bit_and (b >>> i) 1) in
    (bit_xor lh.0 (bit_and (shl 64 a i) mask), bit_xor lh.1 (bit_and (a >>> (64 - i)) mask))

-- `i` takes the values 6, 12, ..., 60 in step 2 and 61, 62, 63 in step 3.
unfoldable pub gf2x_mul_1x1 : ℕ → ℕ → List ℕ
gf2x_mul_1x1 a b =
    let u = mul_table (bit_and b (2 ^ 61 - 1)) in
    let second = get_or u (bit_and (a >>> 3) 7) 0 in
    let l = bit_xor (get_or u (bit_and a 7) 0) (shl 64 second 3) in
    let h = second >>> 61 in
    let lh = for_range 10 1 (λ k. mul_digits u a (6 * k)) (l, h) in
    let lh' = for_range 3 61 (mul_last a b) lh in lh'.0 ∷ lh'.1 ∷ []

-- `karatzuba_add1`: the arrays `alah`, `blbh` and `tmp`, where `res` has the two products.
unfoldable pub karatzuba_add1 : List ℕ → List ℕ → List ℕ → ℕ → List ℕ × List ℕ × List ℕ
karatzuba_add1 res a b n_half = (
  fill n_half 0 (λ j r. bit_xor (get_or a j 0) (get_or a (n_half + j) 0)) (replicate n_half 0),
  fill n_half 0 (λ j r. bit_xor (get_or b j 0) (get_or b (n_half + j) 0)) (replicate n_half 0),
  fill n_half 0 (λ j r. bit_xor (get_or res (n_half + j) 0) (get_or res (2 * n_half + j) 0))
      (replicate n_half 0),
)

-- `karatzuba_add2`, where `res1` is `res + n_half` and `res2` is `res1 + n_half`.
unfoldable pub karatzuba_add2 : List ℕ → List ℕ → ℕ → List ℕ
karatzuba_add2 res tmp n_half =
    for_range n_half 0
      (λ j r.
        let r1 =
          set r (n_half + j)
            (bit_xor (get_or r (n_half + j) 0) (bit_xor (get_or r j 0) (get_or tmp j 0))) in
        set r1 (2 * n_half + j) (
          bit_xor (get_or r1 (2 * n_half + j) 0)
            (bit_xor (get_or r1 (3 * n_half + j) 0) (get_or tmp j 0))))
      res

-- The `2 * n` words of the product, with a count of the halvings that are allowed. The second
-- product is written over the middle of the first two.
unfoldable pub karatzuba : ℕ → List ℕ → List ℕ → ℕ → List ℕ
karatzuba zero a b n = replicate (2 * n) 0
karatzuba (suc rounds) a b n = elim (1 == n) [
  | true ↦ gf2x_mul_1x1 (get_or a 0 0) (get_or b 0 0)
  | false ↦
      let half_n = n >>> 1 in
      let low = karatzuba rounds (take half_n a) (take half_n b) half_n in
      let high = karatzuba rounds (drop half_n a) (drop half_n b) half_n in
      let (alah, blbh, tmp) = karatzuba_add1 (low ++ high) a b half_n in
      let mid = karatzuba rounds alah blbh half_n in
      karatzuba_add2 (take half_n low ++ (mid ++ drop half_n high)) tmp half_n
]

module _ (l : Level) where
  -- The loop of `red`.
  unfoldable pub fold_words : List ℕ → List ℕ
  fold_words a =
      fill (r_qw l) 0
        (λ i b. bit_xor (get_or b i 0) (
          bit_or (get_or b (r_qw l + i - 1) 0 >>> last_r_qw_lead l)
            (shl 64 (get_or b (r_qw l + i) 0) (last_r_qw_trail l))))
        a

  -- `secure_clean` sets the words from `R_QW` on to 0.
  unfoldable pub red : List ℕ → List ℕ
  red a =
      let folded = fold_words a in
      fill (r_qw l) (r_qw l) (λ i b. 0)
        (set folded (r_qw l - 1) (bit_and (get_or folded (r_qw l - 1) 0) (last_r_qw_mask l)))

  -- `R_PADDED_QW` is a power of two of at most 11 digits: 12 halvings are enough.
  unfoldable pub gf2x_mod_mul : List ℕ → List ℕ → List ℕ
  gf2x_mod_mul a b = red (karatzuba 12 a b (r_padded_qw l))
