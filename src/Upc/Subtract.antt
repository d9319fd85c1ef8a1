-- ===== src/Upc/Subtract.antt =====
-- `bit_slice_full_subtract` subtracts a number from every counter, modulo two to the number of
-- slices; the last slice then tells which counters were smaller.
use native.Mathlib.Nat.{pow-suc}
use bike_modify.Base.{ℕ, suc, ◌+◌, ◌-◌, ◌*◌, ◌/◌, ◌%◌, ◌^◌, ◌≤◌, ◌<◌, ◌≡◌, refl, ap, ◌∙◌, arith}
use bike_modify.Base.{
  List, [], ◌∷◌, length, get_or, to_nat, length-fill_pair, fill_pair_inside, fill_pair_outside,
}
use bike_modify.Base.{bit_and, bit_or, bit_xor, Bool, false, xor, not, ◌&&◌, ◌||◌, ◌==◌, ltb, ◌⊎◌}
use bike_modify.Base.{
  lt_or_le, inl, inr, replicate, length-replicate, get_or-replicate, if◌then◌else◌,
}
use bike_modify.Bits.{bit, bit-and, bit-or, bit-xor, bit-zero, bit-complement}
use bike_modify.Word.{
  bit_at, IsWords, bit_xor-lt, bit_and-lt, bit_or-lt, complement, complement-lt, sub_word,
}
use bike_modify.Word.{bit-lsb_mask, lsb_mask-lt, ◌>>>◌}
use bike_modify.Params.{Level, r_qw}
use bike_modify.Upc.{Slices, borrow, subtract_slice, subtract_from, bit_slice_full_subtract}
use bike_modify.Upc.Columns.{count, count-lt, AreSlices}

-- The borrow out of one digit.
abbrev borrows : Bool → Bool → Bool → Bool
borrows a b c = (not a && b && not c) || ((not a || b) && c)

bit-borrow :
    (b a c i : ℕ)
    → i < 64
    → a < 2 ^ 64
    → c < 2 ^ 64
    → bit (borrow b a c) i ≡ borrows (bit a i) (bit b i) (bit c i)
unfolding borrow
bit-borrow b a c i h p q = ground (
  arith,
  bit-or i (bit_and (bit_and (complement 64 a) b) (complement 64 c))
      (bit_and (bit_or (complement 64 a) b) c),
  bit-and i (bit_and (complement 64 a) b) (complement 64 c),
  bit-and i (complement 64 a) b,
  bit-and i (bit_or (complement 64 a) b) c,
  bit-or i (complement 64 a) b,
  bit-complement 64 a i p,
  bit-complement 64 c i q,
)

borrow-lt : (b a c : ℕ) → b < 2 ^ 64 → c < 2 ^ 64 → borrow b a c < 2 ^ 64
unfolding borrow
borrow-lt b a c p q =
    bit_or-lt 64 _ _
      (bit_and-lt 64 _ (complement 64 c) (bit_and-lt 64 (complement 64 a) b (complement-lt 64 a)))
      (bit_and-lt 64 _ c (bit_or-lt 64 (complement 64 a) b (complement-lt 64 a) p))

subtract_table :
    (a b c : Bool)
    → to_nat (xor (xor a b) c) + to_nat b + to_nat c ≡ to_nat a + 2 * to_nat (borrows a b c)
unfolding xor
subtract_table a b c = ground arith

module _ (l : Level) where
  module _ (m : ℕ) (slice br : List ℕ) where
    subtract_slice_word :
        (i : ℕ)
        → i < r_qw l
        → r_qw l ≤ length slice
        → r_qw l ≤ length br
        → (get_or (subtract_slice l m slice br).0 i 0
            ≡ bit_xor (bit_xor (get_or slice i 0) m) (get_or br i 0))
          × (get_or (subtract_slice l m slice br).1 i 0
              ≡ borrow m (get_or slice i 0) (get_or br i 0))
    unfolding subtract_slice
    subtract_slice_word i h p q =
        fill_pair_inside 0 (λ a c. bit_xor (bit_xor a m) c) (borrow m) (r_qw l) 0 slice br i
          (omega arith) (omega arith) (omega arith) (omega arith)

    subtract_slice_past :
        (i : ℕ)
        → r_qw l ≤ i
        → (get_or (subtract_slice l m slice br).0 i 0 ≡ get_or slice i 0)
          × (get_or (subtract_slice l m slice br).1 i 0 ≡ get_or br i 0)
    unfolding subtract_slice
    subtract_slice_past i h =
        fill_pair_outside 0 (λ a c. bit_xor (bit_xor a m) c) (borrow m) (r_qw l) 0 slice br i
          (inr (omega arith))

    length-subtract_slice :
        (length (subtract_slice l m slice br).0 ≡ length slice)
        × (length (subtract_slice l m slice br).1 ≡ length br)
    unfolding subtract_slice
    length-subtract_slice = length-fill_pair 0 _ _ (r_qw l) 0 slice br

    subtract_slice-IsWords :
        m < 2 ^ 64
        → IsWords 64 slice
        → IsWords 64 br
        → r_qw l ≤ length slice
        → r_qw l ≤ length br
        → IsWords 64 (subtract_slice l m slice br).0 × IsWords 64 (subtract_slice l m slice br).1
    subtract_slice-IsWords hm w v p q = ((λ i. (both i).0), (λ i. (both i).1))
      where
        both :
            (i : ℕ)
            → (get_or (subtract_slice l m slice br).0 i 0 < 2 ^ 64)
              × (get_or (subtract_slice l m slice br).1 i 0 < 2 ^ 64)
        both i = elim (lt_or_le i (r_qw l)) [
          | inl h ↦
              let e = subtract_slice_word i h p q in
              (
                rw e.0 (bit_xor-lt 64 _ _ (bit_xor-lt 64 _ _ (w i) hm) (v i)),
                rw e.1 (borrow-lt m (get_or slice i 0) _ hm (v i)),
              )
          | inr h ↦ let e = subtract_slice_past i h in (rw e.0 (w i), rw e.1 (v i))
        ]

  subtract_slice_lem :
      (val : ℕ) (slice br : List ℕ) (p : ℕ)
      → p < 64 * r_qw l
      → IsWords 64 slice
      → IsWords 64 br
      → r_qw l ≤ length slice
      → r_qw l ≤ length br
      → let (difference, br') = subtract_slice l (sub_word 64 0 (bit_and val 1)) slice br in
        to_nat (bit_at difference p) + val % 2 + to_nat (bit_at br p)
        ≡ to_nat (bit_at slice p) + 2 * to_nat (bit_at br' p)
  unfolding bit_at
  subtract_slice_lem val slice br p h w v q r =
      let m = sub_word 64 0 (bit_and val 1) in
      let i = p / 64 in
      let b = p % 64 in
      let e = subtract_slice_word m slice br i (omega arith) q r in
      let low = bit-lsb_mask val b (omega arith) in
      let digit =
        ap (λ t. bit t b) e.0
        ∙ bit-xor b (bit_xor (get_or slice i 0) m) (get_or br i 0)
        ∙ ap (λ t. xor t (bit (get_or br i 0) b)) (bit-xor b (get_or slice i 0) m) in
      let out =
        ap (λ t. bit t b) e.1
        ∙ bit-borrow m (get_or slice i 0) (get_or br i 0) b (omega arith) (w i) (v i) in
      omega (
        arith,
        ap to_nat digit,
        ap to_nat out,
        subtract_table (bit (get_or slice i 0) b) (bit m b) (bit (get_or br i 0) b),
        ap to_nat low ∙ to_nat-odd val,
      )
    where
      to_nat-odd : (x : ℕ) → to_nat (x % 2 == 1) ≡ x % 2
      to_nat-odd x = ground arith

  -- The slices after the subtraction, with the borrow out of the last one.
  subtract_from_lem :
      (upc : Slices) (val : ℕ) (br : List ℕ) (p : ℕ)
      → p < 64 * r_qw l
      → AreSlices l upc
      → IsWords 64 br
      → r_qw l ≤ length br
      → val < 2 ^ length upc
      → (k : ℕ) × (k ≤ 1)
        × (count (subtract_from l upc val br) p + val + to_nat (bit_at br p)
            ≡ count upc p + 2 ^ length upc * k)
  unfolding subtract_from
  subtract_from_lem [] val br p h a v q r = (to_nat (bit_at br p), ground arith, omega arith)
  subtract_from_lem (slice ∷ upc) val br p h a v q r =
      let m = sub_word 64 0 (bit_and val 1) in
      let top = pow-suc 2 (length upc) in
      let size = length-subtract_slice m slice br in
      let words = subtract_slice-IsWords m slice br (lsb_mask-lt val) a.1 v a.0 q in
      let low = subtract_slice_lem val slice br p h a.1 v a.0 q in
      let (k, k_le, ih) =
        subtract_from_lem upc (val >>> 1) (subtract_slice l m slice br).1 p h a.2 words.1
          (rw size.1 q) (omega arith) in
      (k, k_le, omega (arith, ih, low, ap (λ (t : ℕ). t * k) top))

  subtract_from-AreSlices :
      (upc : Slices) (val : ℕ) (br : List ℕ)
      → AreSlices l upc
      → IsWords 64 br
      → r_qw l ≤ length br
      → AreSlices l (subtract_from l upc val br)
        × (length (subtract_from l upc val br) ≡ length upc)
  unfolding subtract_from
  subtract_from-AreSlices [] val br a v q = (a, refl)
  subtract_from-AreSlices (slice ∷ upc) val br a v q =
      let m = sub_word 64 0 (bit_and val 1) in
      let size = length-subtract_slice m slice br in
      let words = subtract_slice-IsWords m slice br (lsb_mask-lt val) a.1 v a.0 q in
      let ih =
        subtract_from-AreSlices upc (val >>> 1) (subtract_slice l m slice br).1 a.2 words.1
          (rw size.1 q) in
      ((rw size.0 a.0, words.0, ih.0), ap suc ih.1)

  zeros-IsWords : IsWords 64 (replicate (r_qw l) 0)
  zeros-IsWords i = rw (get_or-replicate {A = ℕ} (r_qw l) 0 i) (omega arith)

  bit_at-zeros : (p : ℕ) → bit_at (replicate (r_qw l) 0) p ≡ false
  unfolding bit_at
  bit_at-zeros p = rw (get_or-replicate {A = ℕ} (r_qw l) 0 (p / 64)) (bit-zero (p % 64))

  -- For slices of words with room for a polynomial, and a value that they can hold, each counter
  -- becomes its difference to `val`, modulo two to the number of slices.
  pub bit_slice_full_subtract_lem :
      (upc : Slices) (val p : ℕ)
      → p < 64 * r_qw l
      → AreSlices l upc
      → val < 2 ^ length upc
      → count (bit_slice_full_subtract l upc val) p
        ≡ (if ltb (count upc p) val then count upc p + 2 ^ length upc - val else count upc p - val)
  unfolding bit_slice_full_subtract
  bit_slice_full_subtract_lem upc val p h a r =
      let br : List ℕ = replicate (r_qw l) 0 in
      let room : r_qw l ≤ length br = rw (length-replicate {A = ℕ} (r_qw l) 0) (omega arith) in
      let (k, k_le, e) = subtract_from_lem upc val br p h a zeros-IsWords room r in
      let same = (subtract_from-AreSlices upc val br a zeros-IsWords room).1 in
      let below = rw same at (count-lt (subtract_from l upc val br) p) in
      let start = ap to_nat (bit_at-zeros p) in
      elim (zero_or_one k k_le) [
        | inl z ↦
            ground (arith, e, start, count-lt upc p, below, ap (λ (t : ℕ). 2 ^ length upc * t) z)
        | inr z ↦
            ground (arith, e, start, count-lt upc p, below, ap (λ (t : ℕ). 2 ^ length upc * t) z)
      ]
    where
      zero_or_one : (k : ℕ) → k ≤ 1 → (k ≡ 0) ⊎ (k ≡ 1)
      zero_or_one k h = ground arith

  pub bit_slice_full_subtract-AreSlices :
      (upc : Slices) (val : ℕ)
      → AreSlices l upc
      → AreSlices l (bit_slice_full_subtract l upc val)
        × (length (bit_slice_full_subtract l upc val) ≡ length upc)
  unfolding bit_slice_full_subtract
  bit_slice_full_subtract-AreSlices upc val a =
      subtract_from-AreSlices upc val (replicate (r_qw l) 0) a zeros-IsWords
        (rw (length-replicate {A = ℕ} (r_qw l) 0) (omega arith))
