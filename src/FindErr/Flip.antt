-- ===== src/FindErr/Flip.antt =====
-- What `find_err1` and `find_err2` do to the error vectors, digit by digit.
use bike_modify.Base.{ℕ, ◌+◌, ◌-◌, ◌*◌, ◌/◌, ◌%◌, ◌^◌, ◌≤◌, ◌<◌, ◌≡◌, refl, ap, ap₂, ◌∙◌, arith}
use bike_modify.Base.{
  List, length, get_or, fill, fill_inside, length-fill, if◌then◌else◌, ltb, leb, lt→ltb,
}
use bike_modify.Base.{false, not, xor, ◌&&◌, bit_and, bit_xor, eq_or_ne, inl, inr}
use bike_modify.Base.{get_or-set_self, get_or-set_ne}
use bike_modify.Bits.{bit, bit-and, bit-xor, bit-complement}
use bike_modify.Word.{bit_at, IsWords, complement, bit-ones}
use bike_modify.Bytes.{byte_of, byte_bit, bit-byte_of, byte_of-lt}
use bike_modify.Params.{
  Level, r_bits, r_qw, r_size, dv, slices, delta, layout, last_r_byte_lead, last_r_byte_mask,
}
use bike_modify.Duplicate.{dup}
use bike_modify.Upc.{Slices}
use bike_modify.Upc.Columns.{count, last_slice, last_slice_lem}
use bike_modify.FindErr.{
  sum_msb, add_delta, count_checks, mask_last_byte, find_err1_at, find_err2_at,
}
use bike_modify.FindErr.Checks.{checks, checks-le, AreIndices}
use bike_modify.FindErr.Counters.{
  AreCounters, IsRotated, count_checks_lem, count_checks-AreCounters, add_delta_lem,
}
use bike_modify.FindErr.Counters.{top, roomy}

-- A digit of `sum_msb` is set if the counter does not reach into the last slice.
sum_msb-bit :
    (l : Level) (upc : Slices) (p : ℕ)
    → length upc ≡ slices l
    → bit (sum_msb l upc (p / 8)) (p % 8) ≡ ltb (count upc p) (2 ^ top l)
unfolding sum_msb
sum_msb-bit l upc p e =
    bit-complement 8 (byte_of (last_slice upc) (p / 8)) (p % 8)
      (byte_of-lt (last_slice upc) (p / 8))
    ∙ ground (
      arith,
      bit-byte_of (last_slice upc) (p / 8) (p % 8) (omega arith),
      ap (bit_at (last_slice upc)) {x = 8 * (p / 8) + p % 8} {y = p} (omega arith),
      last_slice_lem upc p (top l) (omega (arith, e, roomy l)),
    )

module _ (l : Level) (raw : List ℕ) (p : ℕ) (p_lt : p < r_bits l)
    (size : length raw ≡ r_size l) where
  -- The loops over the bytes of a vector write the digit of the byte that they compute.
  bytes_loop :
      (f : ℕ → ℕ → ℕ)
      → byte_bit (fill (r_size l) 0 (λ j b. f j (get_or b j 0)) raw) p
        ≡ bit (f (p / 8) (get_or raw (p / 8) 0)) (p % 8)
  unfolding byte_bit
  bytes_loop f =
      ap (λ t. bit t (p % 8))
        (fill_inside 0 (λ j b. f j (get_or b j 0)) (λ k xs ys a. ap (f k) (a k (omega arith)))
          (r_size l) 0 raw (p / 8) (omega arith) (omega (arith, layout l))
          (omega (arith, layout l)))

  -- The mask of the last byte keeps the digits below `R_BITS` …
  pub mask_last_byte_keeps : byte_bit (mask_last_byte l raw) p ≡ byte_bit raw p
  unfolding byte_bit mask_last_byte last_r_byte_mask
  mask_last_byte_keeps = elim (eq_or_ne (r_size l - 1) (p / 8)) [
    | inl e ↦ rw (← e) (
        ap (λ t. bit t (p % 8)) (get_or-set_self raw (r_size l - 1) _ 0 (omega (arith, layout l)))
        ∙ bit-and (p % 8) _ _
        ∙ ground (arith, bit-ones (last_r_byte_lead l) (p % 8), layout l))
    | inr ne ↦ ap (λ t. bit t (p % 8)) (get_or-set_ne raw (r_size l - 1) (p / 8) _ 0 ne)
  ]

-- … and clears those from `R_BITS` on.
pub mask_last_byte_clears :
    (l : Level) (raw : List ℕ) (p : ℕ)
    → length raw ≡ r_size l
    → r_bits l ≤ p
    → p < 8 * r_size l
    → byte_bit (mask_last_byte l raw) p ≡ false
unfolding byte_bit mask_last_byte last_r_byte_mask
mask_last_byte_clears l raw p size h k =
    let e : p / 8 ≡ r_size l - 1 = omega (arith, layout l) in
    rw e (
      ap (λ t. bit t (p % 8)) (get_or-set_self raw (r_size l - 1) _ 0 (omega (arith, layout l)))
      ∙ bit-and (p % 8) _ _
      ∙ ground (arith, bit-ones (last_r_byte_lead l) (p % 8), layout l))

module _ (l : Level) (over : ℕ → ℕ → ℕ) (s : List ℕ) (wlist : List ℕ) (threshold : ℕ)
    (len : length s ≡ 3 * r_qw l) (words : IsWords 64 s) (indices : AreIndices l over wlist)
    (few : length wlist ≤ dv l) (low : threshold ≤ 2 ^ top l) where
  abbrev counters : Slices × List ℕ
  counters = count_checks l over (dup l s) wlist threshold

  counters-AreCounters : AreCounters l counters.0 × IsRotated l counters.1
  counters-AreCounters = count_checks-AreCounters l over s len words wlist threshold indices

  counters_lem :
      (p : ℕ)
      → p < r_bits l
      → count counters.0 p ≡ (
          if ltb (checks l s wlist p) threshold
          then checks l s wlist p + 2 ^ slices l - threshold
          else checks l s wlist p - threshold)
  counters_lem p h =
      count_checks_lem l over s len words wlist threshold indices p few (omega (arith, roomy l)) h

  -- After step 2 the digit tells whether the checks reach the threshold …
  black_digit :
      (p : ℕ)
      → p < r_bits l
      → bit (sum_msb l counters.0 (p / 8)) (p % 8) ≡ leb threshold (checks l s wlist p)
  black_digit p h =
      sum_msb-bit l counters.0 p counters-AreCounters.0.1
      ∙ ground (arith, counters_lem p h, checks-le l s wlist p, roomy l)

  -- … and after step 4 whether they do with `DELTA` added.
  gray_digit :
      (p : ℕ)
      → p < r_bits l
      → bit (sum_msb l (add_delta l delta counters.0 counters.1).0 (p / 8)) (p % 8)
        ≡ leb threshold (checks l s wlist p + delta)
  gray_digit p h =
      let c = counters-AreCounters in
      let added =
        add_delta_lem l delta counters.0 counters.1 p c.0 c.1 h (omega (arith, roomy l)) in
      sum_msb-bit l (add_delta l delta counters.0 counters.1).0 p added.1.1
      ∙ ground (arith, added.0, counters_lem p h, checks-le l s wlist p, roomy l)

  module _ (e : List ℕ) (e_size : length e ≡ r_size l) where
    -- The loop that xors the digits into `e`, and the mask of its last byte.
    error_loop :
        (g : ℕ → ℕ) (p : ℕ)
        → p < r_bits l
        → byte_bit (mask_last_byte l (fill (r_size l) 0 (λ j b. bit_xor (get_or b j 0) (g j)) e)) p
          ≡ xor (byte_bit e p) (bit (g (p / 8)) (p % 8))
    error_loop g p h =
        mask_last_byte_keeps l (fill (r_size l) 0 (λ j b. bit_xor (get_or b j 0) (g j)) e) p h
          (length-fill 0 _ (r_size l) 0 e ∙ e_size)
        ∙ bytes_loop l e p h e_size (λ j x. bit_xor x (g j))
        ∙ bit-xor (p % 8) (get_or e (p / 8) 0) (g (p / 8))
        ∙ unfold byte_bit in refl

    module _ (black gray : List ℕ) (black_size : length black ≡ r_size l)
        (gray_size : length gray ≡ r_size l) where
      black_loop :
          (p : ℕ)
          → p < r_bits l
          → byte_bit (fill (r_size l) 0 (λ j b. sum_msb l counters.0 j) black) p
            ≡ leb threshold (checks l s wlist p)
      black_loop p h =
          bytes_loop l black p h black_size (λ j x. sum_msb l counters.0 j) ∙ black_digit p h

      black_byte-lt :
          (p : ℕ)
          → p < r_bits l
          → get_or (fill (r_size l) 0 (λ j b. sum_msb l counters.0 j) black) (p / 8) 0 < 2 ^ 8
      black_byte-lt p h =
          rw
            (fill_inside 0 (λ j b. sum_msb l counters.0 j) (λ k xs ys a. refl) (r_size l) 0 black
              (p / 8) (omega arith) (omega (arith, layout l)) (omega (arith, layout l)))
            (unfold sum_msb in omega arith)

      -- `find_err1` on one polynomial, for a syndrome `s` of words that `dup` has copied, at most `DV`
      -- indices that `rotate_right` can rotate by and a threshold that the counters can hold. Each digit of `e` is flipped, and set in the black vector, exactly if
      -- its unsatisfied parity checks reach the threshold; the gray vector has the digits that are
      -- at most `DELTA` checks short of it.
      pub find_err1_at_lem :
          (p : ℕ)
          → p < r_bits l
          → let found = find_err1_at l over (dup l s) e black gray wlist threshold in
            let flip = leb threshold (checks l s wlist p) in
            (byte_bit found.e p ≡ xor (byte_bit e p) flip)
            × (byte_bit found.black p ≡ flip)
            × (byte_bit found.gray p ≡ (not flip && leb threshold (checks l s wlist p + delta)))
      unfolding find_err1_at
      find_err1_at_lem p h =
          let black' = fill (r_size l) 0 (λ j b. sum_msb l counters.0 j) black in
          let upc' = (add_delta l delta counters.0 counters.1).0 in
          (
            error_loop (sum_msb l counters.0) p h ∙ ap (xor (byte_bit e p)) (black_digit p h),
            black_loop p h,
            bytes_loop l gray p h gray_size
                  (λ j x. bit_and (complement 8 (get_or black' j 0)) (sum_msb l upc' j))
                ∙ bit-and (p % 8) _ _
                ∙ ap₂ ◌&&◌
                    (bit-complement 8 (get_or black' (p / 8) 0) (p % 8) (black_byte-lt p h)
                      ∙ ap₂ (λ a b. a && not b) (lt→ltb (p % 8) 8 (omega arith)) (black_bit p h))
                    (gray_digit p h),
          )
        where
          black_bit :
              (q : ℕ)
              → q < r_bits l
              → bit
                  (get_or (fill (r_size l) 0 (λ j b. sum_msb l counters.0 j) black) (q / 8) 0)
                  (q % 8)
                ≡ leb threshold (checks l s wlist q)
          black_bit q k = unfold byte_bit in black_loop q k

    -- `find_err2` on one polynomial, for a syndrome `s` of words that `dup` has copied, at most `DV`
    -- indices that `rotate_right` can rotate by and a threshold that the counters can hold: a digit
    -- of `e` is flipped exactly if it is set in the mask `pos_e` and its unsatisfied parity checks
    -- reach the threshold.
    pub find_err2_at_lem :
        (pos_e : List ℕ) (p : ℕ)
        → p < r_bits l
        → byte_bit (find_err2_at l over (dup l s) e pos_e wlist threshold) p
          ≡ xor (byte_bit e p) (byte_bit pos_e p && leb threshold (checks l s wlist p))
    unfolding find_err2_at
    find_err2_at_lem pos_e p h =
        error_loop (λ j. bit_and (get_or pos_e j 0) (sum_msb l counters.0 j)) p h
        ∙ ap (xor (byte_bit e p)) (
            bit-and (p % 8) (get_or pos_e (p / 8) 0) (sum_msb l counters.0 (p / 8))
            ∙ ap (λ t. bit (get_or pos_e (p / 8) 0) (p % 8) && t) (black_digit p h)
            ∙ unfold byte_bit in refl)

    -- `find_err1` and `find_err2` on one polynomial, whose array `e` has `R_SIZE` bytes, leave the
    -- padding of `e`, the digits from `R_BITS` on, at 0. The section's conditions are those of the two
    -- theorems above.
    pub find_err_padding :
        (black gray pos_e : List ℕ) (p : ℕ)
        → r_bits l ≤ p
        → p < 8 * r_size l
        → (byte_bit (find_err1_at l over (dup l s) e black gray wlist threshold).e p ≡ false)
          × (byte_bit (find_err2_at l over (dup l s) e pos_e wlist threshold) p ≡ false)
    unfolding find_err1_at find_err2_at
    find_err_padding black gray pos_e p h k = (
      mask_last_byte_clears l _ p (length-fill 0 _ (r_size l) 0 e ∙ e_size) h k,
      mask_last_byte_clears l _ p (length-fill 0 _ (r_size l) 0 e ∙ e_size) h k,
    )
