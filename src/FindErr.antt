-- ===== src/FindErr.antt =====
-- decode/decode.c: `find_err1` and `find_err2`, which flip the digits of the error vector whose
-- counter of unsatisfied parity checks reaches the threshold.
pub mod Checks
pub mod Counters
pub mod Flip
use bike_modify.Base.{ℕ, zero, suc, ◌+◌, ◌-◌, ◌*◌, ◌/◌, ◌%◌, ◌^◌, bit_and, bit_or, bit_xor}
use bike_modify.Base.{List, [], ◌∷◌, get_or, set, replicate, fill}
use bike_modify.Word.{complement}
use bike_modify.Bytes.{byte_of, memset}
use bike_modify.Params.{Level, r_qw, r_size, r_padded_qw, slices, delta, log2_msb, last_r_byte_mask}
use bike_modify.Rotate.{rotate_right}
use bike_modify.Upc.{Slices, bit_sliced_adder, bit_slice_full_subtract}
use bike_modify.Upc.Columns.{last_slice}

-- `generic_param_n_t`: two polynomials, `val[0]` and `val[1]`, as byte arrays.
pub record Pair : Type 0 where
  pub val0 : List ℕ
  pub val1 : List ℕ

module _ (l : Level) where
  -- `memset(&upc, 0, sizeof(upc))`
  unfoldable pub zero_upc : Slices
  zero_upc = replicate (slices l) (replicate (r_padded_qw l) 0)

  -- The loop over `j` of step 1, from `j` on. `rotated` is the array `rotated_syndrome`, which
  -- each round overwrites whole; what the last round leaves in it is returned.
  unfoldable pub add_checks : (ℕ → ℕ → ℕ) → List ℕ → List ℕ → ℕ → Slices → List ℕ → Slices × List ℕ
  add_checks over syndrome [] j upc rotated = (upc, rotated)
  add_checks over syndrome (w ∷ wlist) j upc rotated =
      let (upc', rotated') =
        bit_sliced_adder l upc (rotate_right l over syndrome w) (log2_msb (j + 1)) in
      add_checks over syndrome wlist (j + 1) upc' rotated'

  -- The loop over `l` of step 4, with the rounds left.
  unfoldable pub add_delta : ℕ → Slices → List ℕ → Slices × List ℕ
  add_delta zero upc rotated = (upc, rotated)
  add_delta (suc n) upc rotated =
      let (upc', rotated') = bit_sliced_adder l upc (memset rotated 255 (r_size l)) (slices l) in
      add_delta n upc' rotated'

  -- `sum_msb`, byte `j` of `~last_slice`
  unfoldable pub sum_msb : Slices → ℕ → ℕ
  sum_msb upc j = complement 8 (byte_of (last_slice upc) j)

  -- `raw[R_SIZE - 1] &= LAST_R_BYTE_MASK`
  unfoldable pub mask_last_byte : List ℕ → List ℕ
  mask_last_byte raw =
      set raw (r_size l - 1) (bit_and (get_or raw (r_size l - 1) 0) (last_r_byte_mask l))

-- What `find_err1` leaves in the error vectors for one polynomial.
pub record Found : Type 0 where
  pub e : List ℕ
  pub black : List ℕ
  pub gray : List ℕ

module _ (l : Level) (over : ℕ → ℕ → ℕ) (syndrome : List ℕ) where
  -- Steps 1 and 2: the counters less the threshold, and the array `rotated_syndrome`.
  unfoldable pub count_checks : List ℕ → ℕ → Slices × List ℕ
  count_checks wlist threshold =
      let (upc, rotated) =
        add_checks l over syndrome wlist 0 (zero_upc l) (replicate (3 * r_qw l) 0) in
      (bit_slice_full_subtract l upc threshold, rotated)

  -- The body of the loop over `i` of `find_err1`. Each of its loops over bytes that writes two
  -- arrays is written as two loops: neither array is read by the other's.
  unfoldable pub find_err1_at : List ℕ → List ℕ → List ℕ → List ℕ → ℕ → Found
  find_err1_at e black gray wlist threshold =
      let (upc, rotated) = count_checks wlist threshold in
      let black' = fill (r_size l) 0 (λ j b. sum_msb l upc j) black in
      let e' = fill (r_size l) 0 (λ j b. bit_xor (get_or b j 0) (sum_msb l upc j)) e in
      let (upc', rotated') = add_delta l delta upc rotated in
      let gray' =
        fill (r_size l) 0 (λ j b. bit_and (complement 8 (get_or black' j 0)) (sum_msb l upc' j))
          gray in
      record { e = mask_last_byte l e'; black = black'; gray = gray' }

  -- The body of the loop over `i` of `find_err2`.
  unfoldable pub find_err2_at : List ℕ → List ℕ → List ℕ → ℕ → List ℕ
  find_err2_at e pos_e wlist threshold =
      let (upc, rotated) = count_checks wlist threshold in
      mask_last_byte l (
        fill (r_size l) 0
          (λ j b. bit_xor (get_or b j 0) (bit_and (get_or pos_e j 0) (sum_msb l upc j))) e)

  -- The error vectors `e`, `black_e` and `gray_e` after `find_err1`.
  unfoldable pub find_err1 : Pair → Pair → Pair → Pair → ℕ → Pair × Pair × Pair
  find_err1 e black_e gray_e wlist threshold =
      let f0 = find_err1_at e.val0 black_e.val0 gray_e.val0 wlist.val0 threshold in
      let f1 = find_err1_at e.val1 black_e.val1 gray_e.val1 wlist.val1 threshold in
      (
        record { val0 = f0.e; val1 = f1.e },
        record { val0 = f0.black; val1 = f1.black },
        record { val0 = f0.gray; val1 = f1.gray },
      )

  unfoldable pub find_err2 : Pair → Pair → Pair → ℕ → Pair
  find_err2 e pos_e wlist threshold = record {
    val0 = find_err2_at e.val0 pos_e.val0 wlist.val0 threshold;
    val1 = find_err2_at e.val1 pos_e.val1 wlist.val1 threshold;
  }
