-- ===== src/FindErr/Counters.antt =====
-- The counters that `find_err1` and `find_err2` compute, against the definition of a digit's
-- unsatisfied parity checks.
use bike_modify.Base.{
  ℕ, zero, suc, ◌+◌, ◌-◌, ◌*◌, ◌/◌, ◌%◌, ◌^◌, ◌≤◌, ◌<◌, ◌≡◌, refl, ap, ◌∙◌, arith,
}
use bike_modify.Base.{
  List, [], ◌∷◌, length, to_nat, Bool, true, false, ◌⊎◌, inl, inr, replicate, length-replicate,
}
use bike_modify.Base.{Bool-cases, ◌||◌, lt→ltb, get_or-replicate, if◌then◌else◌, ltb}
use bike_modify.Bits.{bit-zero}
use bike_modify.Word.{bit_at, IsWords}
use bike_modify.Bytes.{memset, memset_ones}
use bike_modify.Params.{
  Level, r_bits, r_qw, r_size, r_padded_qw, padded_room, dv, slices, log2_msb, layout, level1,
  level3, level5,
}
use bike_modify.Duplicate.{dup}
use bike_modify.Duplicate.Syndrome.{dup_lem}
use bike_modify.Rotate.{rotate_right}
use bike_modify.Rotate.Cyclic.{rotate_right-dup}
use bike_modify.Rotate.Small.{Shiftable, rotate_right-IsWords}
use bike_modify.Upc.{Slices, bit_sliced_adder}
use bike_modify.Upc.Columns.{count, count-lt, AreSlices}
use bike_modify.Upc.Add.{bit_sliced_adder_lem, bit_sliced_adder-AreSlices, length-bit_sliced_adder}
use bike_modify.Upc.Subtract.{bit_slice_full_subtract_lem, bit_slice_full_subtract-AreSlices}
use bike_modify.FindErr.{add_checks, add_delta, zero_upc, count_checks}
use bike_modify.FindErr.Checks.{checks, AreIndices, log2_msb-holds, log2_msb-le}

to_nat-le : (b : Bool) → to_nat b ≤ 1
to_nat-le b = ground arith

dv-lt : (l : Level) → dv l < 511
unfolding dv
dv-lt level1 = omega arith
dv-lt level3 = omega arith
dv-lt level5 = omega arith

-- The slices have the shape of `upc_t`.
abbrev pub AreCounters : Level → Slices → Type 0
AreCounters l upc = AreSlices l upc × (length upc ≡ slices l)

-- The array `rotated_syndrome`.
abbrev pub IsRotated : Level → List ℕ → Type 0
IsRotated l rotated = IsWords 64 rotated × (length rotated ≡ 3 * r_qw l)

-- Adding a digit to counters of at most `j`, in as many slices as `j + 1` needs, drops no carry.
adder_no_carry :
    (l : Level) (upc : Slices) (rotated : List ℕ) (j p : ℕ)
    → AreCounters l upc
    → IsRotated l rotated
    → j < dv l
    → p < r_bits l
    → count upc p ≤ j
    → count (bit_sliced_adder l upc rotated (log2_msb (j + 1))).0 p
      ≡ count upc p + to_nat (bit_at rotated p)
adder_no_carry l upc rotated j p c r h q k =
    let n = log2_msb (j + 1) in
    let out = to_nat (bit_at (bit_sliced_adder l upc rotated n).1 p) in
    let e =
      bit_sliced_adder_lem l n upc rotated p
        (omega (arith, log2_msb-le l (j + 1) (omega arith), c.1)) c.0 (omega (arith, r.1))
        (omega (arith, layout l)) in
    let fits = log2_msb-holds (j + 1) (omega (arith, dv-lt l)) in
    elim (zero_or_one (bit_at (bit_sliced_adder l upc rotated n).1 p)) [
      | inl z ↦ omega (arith, e, ap (λ (t : ℕ). 2 ^ n * t) z)
      | inr z ↦ absurd (omega (arith, e, ap (λ (t : ℕ). 2 ^ n * t) z, to_nat-le (bit_at rotated p)))
    ]
  where
    zero_or_one : (b : Bool) → (to_nat b ≡ 0) ⊎ (to_nat b ≡ 1)
    zero_or_one b = ground arith

adder-AreCounters :
    (l : Level) (n : ℕ) (upc : Slices) (rotated : List ℕ)
    → AreCounters l upc
    → IsRotated l rotated
    → AreCounters l (bit_sliced_adder l upc rotated n).0
      × IsRotated l (bit_sliced_adder l upc rotated n).1
adder-AreCounters l n upc rotated c r =
    let size = length-bit_sliced_adder l n upc rotated in
    let shape = bit_sliced_adder-AreSlices l n upc rotated c.0 r.0 (omega (arith, r.1)) in
    ((shape.0, size.0 ∙ c.1), (shape.1, size.1 ∙ r.1))

module _ (l : Level) (over : ℕ → ℕ → ℕ) (s : List ℕ) (len : length s ≡ 3 * r_qw l)
    (words : IsWords 64 s) where
  rotate_right-IsRotated :
      (w : ℕ) → w < r_bits l → Shiftable over w → IsRotated l (rotate_right l over (dup l s) w)
  rotate_right-IsRotated w h ok =
      let d = dup_lem l s len words in
      rotate_right-IsWords l over (dup l s) w ok (omega (arith, layout l)) d.0 d.1

  add_checks-AreCounters :
      (wlist : List ℕ) (j : ℕ) (upc : Slices) (rotated : List ℕ)
      → AreIndices l over wlist
      → AreCounters l upc
      → IsRotated l rotated
      → AreCounters l (add_checks l over (dup l s) wlist j upc rotated).0
        × IsRotated l (add_checks l over (dup l s) wlist j upc rotated).1
  unfolding add_checks
  add_checks-AreCounters [] j upc rotated a c r = (c, r)
  add_checks-AreCounters (w ∷ wlist) j upc rotated a c r =
      let round = rotate_right l over (dup l s) w in
      let next =
        adder-AreCounters l (log2_msb (j + 1)) upc round c (rotate_right-IsRotated w a.0 a.1) in
      add_checks-AreCounters wlist (j + 1) (bit_sliced_adder l upc round (log2_msb (j + 1))).0
        (bit_sliced_adder l upc round (log2_msb (j + 1))).1 a.2 next.0 next.1

  -- After the loop over the indices the counter of digit `p` has grown by the number of the
  -- unsatisfied parity checks of `p`.
  add_checks_lem :
      (wlist : List ℕ) (j : ℕ) (upc : Slices) (rotated : List ℕ) (p : ℕ)
      → AreIndices l over wlist
      → AreCounters l upc
      → j + length wlist ≤ dv l
      → p < r_bits l
      → count upc p ≤ j
      → count (add_checks l over (dup l s) wlist j upc rotated).0 p
        ≡ count upc p + checks l s wlist p
  unfolding add_checks
  add_checks_lem [] j upc rotated p a c h q k = omega arith
  add_checks_lem (w ∷ wlist) j upc rotated p a c h q k =
      let round = rotate_right l over (dup l s) w in
      let shape = rotate_right-IsRotated w a.0 a.1 in
      let next = adder-AreCounters l (log2_msb (j + 1)) upc round c shape in
      let one = adder_no_carry l upc round j p c shape (omega arith) q k in
      let digit = ap to_nat (rotate_right-dup l over s w p len words a.1 a.0 q) in
      omega (
        arith,
        one,
        digit,
        add_checks_lem wlist (j + 1) (bit_sliced_adder l upc round (log2_msb (j + 1))).0
            (bit_sliced_adder l upc round (log2_msb (j + 1))).1 p a.2 next.0 (omega arith) q
            (omega (arith, one, to_nat-le (bit_at round p))),
      )

-- The counters start at 0, in arrays that hold the words of a polynomial.
count-zeros : (n m p : ℕ) → count (replicate n (replicate m 0)) p ≡ 0
count-zeros zero m p = refl
count-zeros (suc n) m p = omega (arith, count-zeros n m p, ap to_nat (bit_at-zero m p))
  where
    bit_at-zero : (k q : ℕ) → bit_at (replicate k 0) q ≡ false
    bit_at-zero k q =
        unfold bit_at in rw (get_or-replicate {A = ℕ} k 0 (q / 64)) (bit-zero (q % 64))

zeros-AreSlices : (l : Level) (n m : ℕ) → r_qw l ≤ m → AreSlices l (replicate n (replicate m 0))
zeros-AreSlices l zero m h = tt
zeros-AreSlices l (suc n) m h = (
  rw (length-replicate {A = ℕ} m 0) h,
  (λ i. rw (get_or-replicate {A = ℕ} m 0 i) (omega arith)),
  zeros-AreSlices l n m h,
)

zero_upc-AreCounters : (l : Level) → AreCounters l (zero_upc l)
unfolding zero_upc
zero_upc-AreCounters l = (
  zeros-AreSlices l (slices l) (r_padded_qw l) (padded_room l),
  length-replicate (slices l) (replicate (r_padded_qw l) 0),
)

count-zero_upc : (l : Level) (p : ℕ) → count (zero_upc l) p ≡ 0
unfolding zero_upc
count-zero_upc l p = count-zeros (slices l) (r_padded_qw l) p

zeros-IsRotated : (l : Level) → IsRotated l (replicate (3 * r_qw l) 0)
zeros-IsRotated l = (
  (λ i. rw (get_or-replicate {A = ℕ} (3 * r_qw l) 0 i) (omega arith)),
  length-replicate {A = ℕ} (3 * r_qw l) 0,
)

-- The number of the last slice.
abbrev pub top : Level → ℕ
top level1 = 7
top level3 = 7
top level5 = 8

-- The counters leave the last slice free, and room for `DELTA` more.
pub record IsRoomy (l : Level) : Type 0 where
  pub slices_top : slices l ≡ suc (top l)
  pub size : 2 ^ slices l ≡ 2 * 2 ^ top l
  pub room : dv l + 3 < 2 ^ top l

pub roomy : (l : Level) → IsRoomy l
unfolding slices dv
roomy level1 = omega arith
roomy level3 = omega arith
roomy level5 = omega arith

module _ (l : Level) (over : ℕ → ℕ → ℕ) (s : List ℕ) (len : length s ≡ 3 * r_qw l)
    (words : IsWords 64 s) where
  module _ (wlist : List ℕ) (threshold : ℕ) (indices : AreIndices l over wlist) where
    pub count_checks-AreCounters :
        AreCounters l (count_checks l over (dup l s) wlist threshold).0
        × IsRotated l (count_checks l over (dup l s) wlist threshold).1
    unfolding count_checks
    count_checks-AreCounters =
        let shape =
          add_checks-AreCounters l over s len words wlist 0 (zero_upc l) (replicate (3 * r_qw l) 0)
            indices (zero_upc-AreCounters l) (zeros-IsRotated l) in
        let done =
          bit_slice_full_subtract-AreSlices l
            (add_checks l over (dup l s) wlist 0 (zero_upc l) (replicate (3 * r_qw l) 0)).0
            threshold shape.0.0 in
        ((done.0, done.1 ∙ shape.0.1), shape.1)

    -- For a syndrome `s` of words that `dup` has copied, at most `DV` indices that `rotate_right` can
    -- rotate by and a threshold below two to the number of slices, steps 1 and 2 leave in the counter of digit `p` the number of its unsatisfied parity checks
    -- less the threshold, modulo two to the number of slices.
    pub count_checks_lem :
        (p : ℕ)
        → length wlist ≤ dv l
        → threshold < 2 ^ slices l
        → p < r_bits l
        → count (count_checks l over (dup l s) wlist threshold).0 p ≡ (
            if ltb (checks l s wlist p) threshold
            then checks l s wlist p + 2 ^ slices l - threshold
            else checks l s wlist p - threshold)
    unfolding count_checks
    count_checks_lem p h k q =
        let start = zero_upc-AreCounters l in
        let upc = (add_checks l over (dup l s) wlist 0 (zero_upc l) (replicate (3 * r_qw l) 0)).0 in
        let shape =
          (add_checks-AreCounters l over s len words wlist 0 (zero_upc l) (replicate (3 * r_qw l) 0)
            indices start (zeros-IsRotated l)).0 in
        let sum =
          add_checks_lem l over s len words wlist 0 (zero_upc l) (replicate (3 * r_qw l) 0) p
            indices start (omega arith) q (omega (arith, count-zero_upc l p))
          ∙ ap (λ (t : ℕ). t + checks l s wlist p) (count-zero_upc l p) in
        let less =
          bit_slice_full_subtract_lem l upc threshold p (omega (arith, layout l)) shape.0
            (rw shape.1 k) in
        ground (arith, less, sum, ap (λ (t : ℕ). 2 ^ t) shape.1)

-- Adding all ones in every slice counts modulo two to the number of slices.
add_one :
    (l : Level) (upc : Slices) (rotated : List ℕ) (p : ℕ)
    → AreCounters l upc
    → IsRotated l rotated
    → p < r_bits l
    → bit_at rotated p ≡ true
    → count (bit_sliced_adder l upc rotated (slices l)).0 p
      ≡ (if ltb (count upc p + 1) (2 ^ slices l) then count upc p + 1 else 0)
add_one l upc rotated p c r h one =
    let out = bit_at (bit_sliced_adder l upc rotated (slices l)).1 p in
    let e =
      bit_sliced_adder_lem l (slices l) upc rotated p (omega (arith, c.1)) c.0 (omega (arith, r.1))
        (omega (arith, layout l)) in
    let shape = adder-AreCounters l (slices l) upc rotated c r in
    let below = rw shape.0.1 at (count-lt (bit_sliced_adder l upc rotated (slices l)).0 p) in
    let before = rw c.1 at (count-lt upc p) in
    elim (Bool-cases out) [
      | inl z ↦
          ground
            (arith, e, ap to_nat one, below, before, ap (λ (t : Bool). 2 ^ slices l * to_nat t) z)
      | inr z ↦
          ground
            (arith, e, ap to_nat one, below, before, ap (λ (t : Bool). 2 ^ slices l * to_nat t) z)
    ]

r_size_room : (l : Level) → r_size l ≤ 8 * (3 * r_qw l)
unfolding r_size r_qw
r_size_room level1 = omega arith
r_size_room level3 = omega arith
r_size_room level5 = omega arith

-- Step 4 counts every counter up by the number of rounds.
pub add_delta_lem :
    (l : Level) (n : ℕ) (upc : Slices) (rotated : List ℕ) (p : ℕ)
    → AreCounters l upc
    → IsRotated l rotated
    → p < r_bits l
    → n < 2 ^ slices l
    → (count (add_delta l n upc rotated).0 p ≡ (
        if ltb (count upc p + n) (2 ^ slices l)
        then count upc p + n
        else count upc p + n - 2 ^ slices l))
      × AreCounters l (add_delta l n upc rotated).0
unfolding add_delta
add_delta_lem l zero upc rotated p c r h k =
    let below = rw c.1 at (count-lt upc p) in (ground arith, c)
add_delta_lem l (suc n) upc rotated p c r h k =
    let ones = memset_ones rotated (r_size l) r.0 (omega (arith, r.1, r_size_room l)) in
    let filled = memset rotated 255 (r_size l) in
    let set_digit : bit_at filled p ≡ true =
      ones.2 p
      ∙ ap (λ t. t || bit_at rotated p) (lt→ltb p (8 * r_size l) (omega (arith, layout l))) in
    let shape : IsRotated l filled = (ones.1, ones.0 ∙ r.1) in
    let one = add_one l upc filled p c shape h set_digit in
    let next = adder-AreCounters l (slices l) upc filled c shape in
    let below = rw c.1 at (count-lt upc p) in
    let rest =
      add_delta_lem l n (bit_sliced_adder l upc filled (slices l)).0
        (bit_sliced_adder l upc filled (slices l)).1 p next.0 next.1 h (omega arith) in
    (ground (arith, rest.0, one), rest.1)
