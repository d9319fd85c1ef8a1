-- ===== src/Upc/Add.antt =====
-- `bit_sliced_adder` adds one to the counter of each digit that is set.
use native.Mathlib.Nat.{pow-suc}
use bike_modify.Base.{ℕ, zero, suc, ◌+◌, ◌*◌, ◌/◌, ◌%◌, ◌^◌, ◌≤◌, ◌<◌, ◌≡◌, refl, ap, ◌∙◌, arith}
use bike_modify.Base.{
  List, [], ◌∷◌, length, get_or, to_nat, length-fill_pair, fill_pair_inside, fill_pair_outside,
}
use bike_modify.Base.{bit_and, bit_xor, Bool, xor, ◌&&◌, lt_or_le, inl, inr}
use bike_modify.Bits.{bit, bit-and, bit-xor}
use bike_modify.Word.{bit_at, IsWords, bit_xor-lt, bit_and-lt}
use bike_modify.Params.{Level, r_qw}
use bike_modify.Upc.{Slices, half_add, bit_sliced_adder}
use bike_modify.Upc.Columns.{count, AreSlices}

module _ (l : Level) where
  half_add_lem :
      (slice rotated : List ℕ) (p : ℕ)
      → p < 64 * r_qw l
      → r_qw l ≤ length slice
      → r_qw l ≤ length rotated
      → (bit_at (half_add l slice rotated).0 p ≡ xor (bit_at slice p) (bit_at rotated p))
        × (bit_at (half_add l slice rotated).1 p ≡ (bit_at slice p && bit_at rotated p))
  unfolding half_add bit_at
  half_add_lem slice rotated p h q r =
      let w = p / 64 in
      let v =
        fill_pair_inside 0 (λ s t. bit_xor s t) (λ s t. bit_and s t) (r_qw l) 0 slice rotated w
          (omega arith) (omega arith) (omega arith) (omega arith) in
      (
        ap (λ t. bit t (p % 64)) v.0 ∙ bit-xor (p % 64) (get_or slice w 0) (get_or rotated w 0),
        ap (λ t. bit t (p % 64)) v.1 ∙ bit-and (p % 64) (get_or slice w 0) (get_or rotated w 0),
      )

  length-half_add :
      (slice rotated : List ℕ)
      → (length (half_add l slice rotated).0 ≡ length slice)
        × (length (half_add l slice rotated).1 ≡ length rotated)
  unfolding half_add
  length-half_add slice rotated = length-fill_pair 0 _ _ (r_qw l) 0 slice rotated

  half_add-IsWords :
      (slice rotated : List ℕ)
      → IsWords 64 slice
      → IsWords 64 rotated
      → r_qw l ≤ length slice
      → r_qw l ≤ length rotated
      → IsWords 64 (half_add l slice rotated).0 × IsWords 64 (half_add l slice rotated).1
  unfolding half_add
  half_add-IsWords slice rotated w v q r = ((λ i. (both i).0), (λ i. (both i).1))
    where
      both :
          (i : ℕ)
          → (get_or (half_add l slice rotated).0 i 0 < 2 ^ 64)
            × (get_or (half_add l slice rotated).1 i 0 < 2 ^ 64)
      both i = elim (lt_or_le i (r_qw l)) [
        | inl h ↦
            let e =
              fill_pair_inside 0 (λ s t. bit_xor s t) (λ s t. bit_and s t) (r_qw l) 0 slice rotated
                i (omega arith) (omega arith) (omega arith) (omega arith) in
            (
              rw e.0 (bit_xor-lt 64 _ _ (w i) (v i)),
              rw e.1 (bit_and-lt 64 (get_or slice i 0) _ (w i)),
            )
        | inr h ↦
            let e =
              fill_pair_outside 0 (λ s t. bit_xor s t) (λ s t. bit_and s t) (r_qw l) 0 slice rotated
                i (inr (omega arith)) in
            (rw e.0 (w i), rw e.1 (v i))
      ]

  pub length-bit_sliced_adder :
      (n : ℕ) (upc : Slices) (rotated : List ℕ)
      → (length (bit_sliced_adder l upc rotated n).0 ≡ length upc)
        × (length (bit_sliced_adder l upc rotated n).1 ≡ length rotated)
  unfolding bit_sliced_adder
  length-bit_sliced_adder zero upc rotated = (refl, refl)
  length-bit_sliced_adder (suc n) [] rotated = (refl, refl)
  length-bit_sliced_adder (suc n) (slice ∷ upc) rotated =
      let ih = length-bit_sliced_adder n upc (half_add l slice rotated).1 in
      (ap suc ih.0, ih.1 ∙ (length-half_add slice rotated).1)

  pub bit_sliced_adder-AreSlices :
      (n : ℕ) (upc : Slices) (rotated : List ℕ)
      → AreSlices l upc
      → IsWords 64 rotated
      → r_qw l ≤ length rotated
      → AreSlices l (bit_sliced_adder l upc rotated n).0
        × IsWords 64 (bit_sliced_adder l upc rotated n).1
  unfolding bit_sliced_adder
  bit_sliced_adder-AreSlices zero upc rotated a w r = (a, w)
  bit_sliced_adder-AreSlices (suc n) [] rotated a w r = (a, w)
  bit_sliced_adder-AreSlices (suc n) (slice ∷ upc) rotated a w r =
      let e = length-half_add slice rotated in
      let v = half_add-IsWords slice rotated a.1 w a.0 r in
      let ih = bit_sliced_adder-AreSlices n upc (half_add l slice rotated).1 a.2 v.1 (rw e.1 r) in
      ((rw e.0 a.0, v.0, ih.0), ih.1)

  half_adder_table : (a b : Bool) → to_nat (xor a b) + 2 * to_nat (a && b) ≡ to_nat a + to_nat b
  unfolding xor
  half_adder_table a b = ground arith

  -- On the first `n` slices, all of words with room for a polynomial: the new counter and the carry out of its first `n` digits make up the old
  -- counter and the digit that is added.
  pub bit_sliced_adder_lem :
      (n : ℕ) (upc : Slices) (rotated : List ℕ) (p : ℕ)
      → n ≤ length upc
      → AreSlices l upc
      → r_qw l ≤ length rotated
      → p < 64 * r_qw l
      → count (bit_sliced_adder l upc rotated n).0 p
          + 2 ^ n * to_nat (bit_at (bit_sliced_adder l upc rotated n).1 p)
        ≡ count upc p + to_nat (bit_at rotated p)
  unfolding bit_sliced_adder
  bit_sliced_adder_lem zero upc rotated p h a r q = omega arith
  bit_sliced_adder_lem (suc n) [] rotated p h a r q = absurd (omega arith)
  bit_sliced_adder_lem (suc n) (slice ∷ upc) rotated p h a r q =
      let (sum, carry) = half_add l slice rotated in
      let d = half_add_lem slice rotated p q a.0 r in
      let out = to_nat (bit_at (bit_sliced_adder l upc carry n).1 p) in
      omega (
        arith,
        bit_sliced_adder_lem n upc carry p (omega arith) a.2
            (rw (length-half_add slice rotated).1 r) q,
        ap to_nat d.0,
        ap to_nat d.1,
        half_adder_table (bit_at slice p) (bit_at rotated p),
        ap (λ (t : ℕ). t * out) (pow-suc 2 n),
      )
