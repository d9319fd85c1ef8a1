-- ===== src/Upc.antt =====
-- decode/decode.c: `bit_sliced_adder` and `bit_slice_full_subtract`. A `upc_t` holds one counter for
-- each digit of a polynomial, in slices: slice `j` has digit `j` of every counter.
pub mod Columns
pub mod Add
pub mod Subtract
use bike_modify.Base.{ℕ, zero, suc, ◌+◌, ◌-◌, ◌*◌, ◌/◌, ◌^◌, bit_and, bit_or, bit_xor}
use bike_modify.Base.{List, [], ◌∷◌, get_or, fill_pair, replicate}
use bike_modify.Word.{complement, sub_word, ◌>>>◌}
use bike_modify.Params.{Level, r_qw}

-- The word arrays of the slices, the lowest first.
abbrev pub Slices : Type 0
Slices = List (List ℕ)

module _ (l : Level) where
  -- One slice: the loop over `i` of `bit_sliced_adder`.
  unfoldable pub half_add : List ℕ → List ℕ → List ℕ × List ℕ
  half_add slice rotated =
      fill_pair 0 (r_qw l) 0 (λ s r. bit_xor s r) (λ s r. bit_and s r) (slice, rotated)

  -- The loop over the first `num_of_slices` slices. The second part of the result is what is left
  -- in `rotated_syndrome`.
  unfoldable pub bit_sliced_adder : Slices → List ℕ → ℕ → Slices × List ℕ
  bit_sliced_adder upc rotated zero = (upc, rotated)
  bit_sliced_adder [] rotated (suc n) = ([], rotated)
  bit_sliced_adder (slice ∷ upc) rotated (suc n) =
      let (slice', carry) = half_add slice rotated in
      let (upc', rotated') = bit_sliced_adder upc carry n in (slice' ∷ upc', rotated')

-- `((~a) & b & (~br)) | (((~a) | b) & br)`
unfoldable pub borrow : ℕ → ℕ → ℕ → ℕ
borrow b a br =
    bit_or (bit_and (bit_and (complement 64 a) b) (complement 64 br))
      (bit_and (bit_or (complement 64 a) b) br)

module _ (l : Level) where
  -- One slice: the loop over `i` of `bit_slice_full_subtract`.
  unfoldable pub subtract_slice : ℕ → List ℕ → List ℕ → List ℕ × List ℕ
  subtract_slice lsb_mask slice br =
      fill_pair 0 (r_qw l) 0 (λ a c. bit_xor (bit_xor a lsb_mask) c) (borrow lsb_mask) (slice, br)

  -- The loop over the slices.
  unfoldable pub subtract_from : Slices → ℕ → List ℕ → Slices
  subtract_from [] val br = []
  subtract_from (slice ∷ upc) val br =
      let (slice', br') = subtract_slice (sub_word 64 0 (bit_and val 1)) slice br in
      slice' ∷ subtract_from upc (val >>> 1) br'

  unfoldable pub bit_slice_full_subtract : Slices → ℕ → Slices
  bit_slice_full_subtract upc val = subtract_from upc val (replicate (r_qw l) 0)
