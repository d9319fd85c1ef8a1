-- ===== src/Decode/Steps.antt =====
-- `find_err1`, `find_err2` and `get_threshold` against the parts of the reference decoder.
use bike_modify.Base.{ℕ, ◌+◌, ◌*◌, ◌/◌, ◌%◌, ◌^◌, ◌≤◌, ◌<◌, ◌≡◌, refl, ap, ap₂, ◌∙◌, arith}
use bike_modify.Base.{List, [], ◌∷◌, length, Bool, to_nat, leb, not, xor, ◌&&◌}
use native.Mathlib.Nat.{mod-lt, mod-eq_of_lt}
use bike_modify.Word.{bit_at}
use bike_modify.Bytes.{byte_bit}
use bike_modify.Params.{
  Level, level1, level3, level5, r_bits, r_size, dv, delta, layout, threshold_coeff0,
  threshold_coeff1,
}
use bike_modify.Utilities.Weight.{ones, ones_cong, ones-le, r_bits_vector_weight_lem}
use bike_modify.FindErr.{Pair, find_err1_at, find_err2_at}
use bike_modify.FindErr.Checks.{checks, AreIndices}
use bike_modify.FindErr.Counters.{top}
use bike_modify.FindErr.Flip.{find_err1_at_lem, find_err2_at_lem}
use bike_modify.Decode.{bytes_of, syndrome_weight, get_threshold, masked_threshold}
use bike_modify.Decode.Polynomial.{byte_bit-bytes_of}
use bike_modify.Decode.Syndrome.{IsDoubled, IsDoubled-digits}
use bike_modify.Decode.Reference.{Digits, failed, threshold, half_threshold}

-- The digits of two arrays below `R_BITS`.
pub record HasDigits (l : Level) (x : Pair) (f : Digits) : Type 0 where
  pub digits0 : (p : ℕ) → p < r_bits l → byte_bit x.val0 p ≡ f.poly0 p
  pub digits1 : (p : ℕ) → p < r_bits l → byte_bit x.val1 p ≡ f.poly1 p

pub record HasSize (l : Level) (x : Pair) : Type 0 where
  pub size0 : length x.val0 ≡ r_size l
  pub size1 : length x.val1 ≡ r_size l

-- The greatest threshold that `get_threshold` gives.
abbrev pub greatest_threshold : Level → ℕ
greatest_threshold l = (threshold_coeff0 l + threshold_coeff1 l * r_bits l) / 10 ^ 7

of_weight-le :
    (l : Level) (n : ℕ)
    → n ≤ r_bits l
    → (threshold_coeff0 l + threshold_coeff1 l * n) / 10 ^ 7 ≤ greatest_threshold l
unfolding threshold_coeff0 threshold_coeff1 r_bits
of_weight-le level1 n h = omega arith
of_weight-le level3 n h = omega arith
of_weight-le level5 n h = omega arith

pub threshold-le : (l : Level) (f : ℕ → Bool) → threshold l f ≤ greatest_threshold l
unfolding threshold
threshold-le l f = of_weight-le l (ones f (r_bits l)) (ones-le f (r_bits l))

greatest_threshold-lt : (l : Level) → greatest_threshold l < 2 ^ 8
unfolding threshold_coeff0 threshold_coeff1 r_bits
greatest_threshold-lt level1 = omega arith
greatest_threshold-lt level3 = omega arith
greatest_threshold-lt level5 = omega arith

pub masked_threshold_lem : (l : Level) → masked_threshold l ≡ half_threshold l
unfolding masked_threshold half_threshold
masked_threshold_lem l = refl

pub half_threshold-le : (l : Level) → half_threshold l ≤ 2 ^ top l
unfolding half_threshold dv
half_threshold-le level1 = omega arith
half_threshold-le level3 = omega arith
half_threshold-le level5 = omega arith

pub syndrome_weight_lem :
    (l : Level) (s : List ℕ) (f : ℕ → Bool)
    → ((p : ℕ) → p < r_bits l → bit_at s p ≡ f p)
    → syndrome_weight l s ≡ ones f (r_bits l)
unfolding syndrome_weight
syndrome_weight_lem l s f h =
    r_bits_vector_weight_lem l (bytes_of s (r_size l))
    ∙ ones_cong _ _ (r_bits l)
        (λ p k. byte_bit-bytes_of s (r_size l) p (omega (arith, layout l)) ∙ h p k)

pub get_threshold_lem :
    (l : Level) (s : List ℕ) (f : ℕ → Bool) → IsDoubled l f s → get_threshold l s ≡ threshold l f
unfolding get_threshold threshold
get_threshold_lem l s f d =
    ap (λ t. (threshold_coeff0 l + threshold_coeff1 l * t) / 10 ^ 7 % 2 ^ 8)
      (syndrome_weight_lem l s f (λ p h. IsDoubled-digits l f s p d h))
    ∙ mod-eq_of_lt (omega (arith, threshold-le l f, greatest_threshold-lt l))

-- The checks that fail.
failed_lem :
    (l : Level) (s : List ℕ) (f : ℕ → Bool) (wlist : List ℕ) (p : ℕ)
    → ((q : ℕ) → q < r_bits l → bit_at s q ≡ f q)
    → checks l s wlist p ≡ failed l f wlist p
failed_lem l s f [] p h = refl
failed_lem l s f (w ∷ wlist) p h =
    ap₂ ◌+◌ (ap to_nat (h ((p + w) % r_bits l) (mod-lt (p + w) (omega (arith, layout l)))))
      (failed_lem l s f wlist p h)

-- One polynomial of `find_err1` and `find_err2`, on the array of a syndrome with the digits `f`.
module _ (l : Level) (over : ℕ → ℕ → ℕ) (s : List ℕ) (f : ℕ → Bool) (d : IsDoubled l f s)
    (wlist : List ℕ) (indices : AreIndices l over wlist) (few : length wlist ≤ dv l) (t : ℕ)
    (low : t ≤ 2 ^ top l) (e : List ℕ) (e_size : length e ≡ r_size l) where
  pub find_err1_digits :
      (black gray : List ℕ) (p : ℕ)
      → length black ≡ r_size l
      → length gray ≡ r_size l
      → p < r_bits l
      → let found = find_err1_at l over s e black gray wlist t in
        let hit = leb t (failed l f wlist p + 0) in
        (byte_bit found.e p ≡ xor (byte_bit e p) hit)
        × (byte_bit found.black p ≡ hit)
        × (byte_bit found.gray p ≡ (not hit && leb t (failed l f wlist p + delta)))
  find_err1_digits black gray p sb sg h =
      rw (◌+◌-zero (failed l f wlist p), ← failed_lem l d.source f wlist p d.digits, d.doubled)
        (find_err1_at_lem l over d.source wlist t d.size d.words indices few low e e_size black gray
          sb sg p h)
    where
      ◌+◌-zero : (n : ℕ) → n + 0 ≡ n
      ◌+◌-zero n = omega arith

  pub find_err2_digits :
      (pos_e : List ℕ) (p : ℕ)
      → p < r_bits l
      → byte_bit (find_err2_at l over s e pos_e wlist t) p
        ≡ xor (byte_bit e p) (byte_bit pos_e p && leb t (failed l f wlist p + 0))
  find_err2_digits pos_e p h =
      let z : failed l f wlist p + 0 ≡ checks l d.source wlist p =
        omega (arith, failed_lem l d.source f wlist p d.digits) in
      rw (z, d.doubled)
        (find_err2_at_lem l over d.source wlist t d.size d.words indices few low e e_size pos_e p h)
