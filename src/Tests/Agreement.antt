-- ===== src/Tests/Agreement.antt =====
-- Inputs for the agreement of both sides: the secret polynomials 1 and 0, with 71 times the index 0,
-- and errors that are the first 134 digits.
use bike_modify.Base.{◌^◌, ◌%◌}
use bike_modify.Base.{ℕ, zero, suc, ◌+◌, ◌/◌, ◌%◌, ◌≤◌, ◌<◌, ◌≡◌, refl, sym, ap, ◌∙◌, arith}
use bike_modify.Base.{
  List, [], ◌∷◌, length, replicate, get_or, get_or-replicate, true, false, xor, ◌==◌, ◌||◌,
  lt_or_le, inl, inr,
}
use bike_modify.Bits.{bit, bit-zero}
use bike_modify.Word.{IsWords, ◌>>>◌}
use bike_modify.Bytes.{byte_bit, memset, memset_zeros}
use bike_modify.Params.{
  level1, r_bits, r_size, n_bits, n_size, n_padded_size, t1, dv, layout, threshold_coeff0,
  threshold_coeff1,
}
use bike_modify.Result.{ok}
use bike_modify.Utilities.{r_bits_vector_weight}
use bike_modify.Utilities.Weight.{ones, ones_cong, r_bits_vector_weight_lem}
use bike_modify.Poly.Sum.{xor_comm, xor-false}
use bike_modify.Sampling.{set_bits}
use bike_modify.Sampling.SetBits.{is_listed, set_bits_lem}
use bike_modify.Gf2x.{gf2x_add}
use bike_modify.Gf2x.Add.{gf2x_add_lem}
use bike_modify.FindErr.{Pair}
use bike_modify.FindErr.Checks.{AreIndices}
use bike_modify.Decode.{SecretKey, bytes_of, mod_mul}
use bike_modify.Decode.Syndrome.{ArePolys}
use bike_modify.Decode.Polynomial.{
  IsPoly, mod_mul_lem, length-bytes_of, bytes_of-IsWords, byte_bit-bytes_of,
}
use bike_modify.Decode.Reference.{reference, is_solved}
use bike_modify.Decode.Steps.{HasDigits}
use bike_modify.Decode.Shown.{digits_of, places_of, AreSparse}
use bike_modify.Kem.{add_pair, multiply_pair, crypto_kem_enc, crypto_kem_dec}
use bike_modify.Kem.Split.{split_e_lem}
use bike_modify.Kem.Hashed.{IsScratch, function_h_lem}
use bike_modify.Kem.Scratch.{errors, sparse_bytes}
use bike_modify.Kem.Agreement.{agreement}
use bike_modify.Openssl.Arithmetic.{bit-pow}
use bike_modify.Tests.Kem.{key}
use bike_modify.Tests.Polynomials.{two_polys, two_polys-ArePolys}
use bike_modify.Tests.Finding.{reference-IsFound, reference-solved, product_none}
use bike_modify.Tests.RoundTrip.{
  numbers, scratch, blank, masked, found, scratch-IsScratch, errors_hashed, size1473, up,
  mask_sampled, zeros-IsPoly, blank-ArePolys,
}

-- A shift by 64 that gives 0.
abbrev no_digits : ℕ → ℕ → ℕ
no_digits x k = 0

abbrev unit_key : SecretKey
unit_key = record key { bin = two_polys 1 0; wlist = record { val0 = replicate 71 0; val1 = [] } }

zero_places : (n : ℕ) → AreIndices level1 no_digits (replicate n 0)
unfolding r_bits
zero_places zero = tt
zero_places (suc n) = (omega arith, inr (λ x. refl), zero_places n)

unit_key-AreSparse : AreSparse level1 no_digits unit_key.wlist
unfolding dv
unit_key-AreSparse = record {
  indices0 = zero_places 71;
  indices1 = tt;
  few0 = omega arith;
  few1 = omega arith;
}

up-lt : (n k i : ℕ) → get_or (up n k) i 0 < n + k + 1
up-lt n zero i = omega arith
up-lt n (suc k) zero = omega arith
up-lt n (suc k) (suc i) = omega (arith, up-lt (n + 1) k i)

not_listed : (n j p : ℕ) → 135 ≤ p → is_listed (up 0 134) n j p ≡ false
not_listed zero j p h = refl
not_listed (suc n) j p h = ground (arith, up-lt 0 134 j, not_listed n (j + 1) p h)

sizes :
    (r_bits level1 ≡ 11779)
    × (n_bits level1 ≡ 23558)
    × (n_size level1 ≡ 2945)
    × (n_padded_size level1 ≡ 4096)
unfolding r_bits n_bits n_size n_padded_size
sizes = (refl, refl, refl, refl)

-- The digits of the second error polynomial are the indices from `R_BITS` on.
second_digits :
    (e w : List ℕ) (p : ℕ)
    → IsScratch level1 e
    → IsWords 32 w
    → p < r_bits level1
    → byte_bit (errors level1 numbers e blank w).val1 p
      ≡ is_listed w (t1 level1) 0 (r_bits level1 + p)
unfolding errors sparse_bytes
second_digits e w p s words h =
    let count = ((n_bits level1 + 7) % 2 ^ 32) >>> 3 in
    let cleared = memset e 0 count in
    let set = set_bits cleared w (n_padded_size level1) (t1 level1) in
    let zeros = memset_zeros e count s.words (omega (arith, s.room, sizes)) in
    let q : ℕ = r_bits level1 + p in
    ((split_e_lem level1 blank (bytes_of set (n_size level1)) size1473
        (length-bytes_of set (n_size level1)) (bytes_of-IsWords set (n_size level1))).1
      p h).1
    ∙ byte_bit-bytes_of set (n_size level1) q (omega (arith, sizes))
    ∙ set_bits_lem cleared w (n_padded_size level1) (t1 level1) q words
        (omega (arith, s.room, zeros.0)) (omega (arith, sizes))
    ∙ ap (λ b. b || is_listed w (t1 level1) 0 q) (zeros.1 q (omega (arith, sizes)))

no_second : (p : ℕ) → p < r_bits level1 → byte_bit found.val1 p ≡ false
no_second p h =
    second_digits scratch (up 0 134) p scratch-IsScratch (λ i. omega (arith, up-lt 0 134 i)) h
    ∙ not_listed (t1 level1) 0 (r_bits level1 + p) (omega (arith, sizes))

found_lem :
    ArePolys level1 found
    × (r_bits_vector_weight level1 found.val0 + r_bits_vector_weight level1 found.val1 ≡ t1 level1)
found_lem =
    function_h_lem level1 blank size1473 numbers scratch masked found scratch-IsScratch
      errors_hashed

abbrev ct : Pair
ct = add_pair level1 numbers blank masked found

-- The ciphertext has the digits of the errors: the public key is 0.
masked_digits :
    (pk : List ℕ) (p : ℕ)
    → IsPoly level1 pk
    → ((i : ℕ) → byte_bit pk i ≡ false)
    → p < r_bits level1
    → byte_bit (mod_mul level1 (replicate 1473 0) pk) p ≡ false
masked_digits pk p s zeros h =
    mod_mul_lem level1 (replicate 1473 0) pk p zeros-IsPoly s h
    ∙ product_none (r_bits level1) (byte_bit (replicate 1473 0)) (byte_bit pk) p zeros

no_digit : (i : ℕ) → byte_bit (replicate 1473 0) i ≡ false
unfolding byte_bit
no_digit i = ap (λ t. bit t (i % 8)) (get_or-replicate {A = ℕ} 1473 0 (i / 8)) ∙ bit-zero (i % 8)

-- A sum with a polynomial that has no digits.
added_digits :
    (res mf e : List ℕ) (p : ℕ)
    → length res ≡ r_size level1
    → ((i : ℕ) → i < r_bits level1 → byte_bit mf i ≡ false)
    → p < r_bits level1
    → byte_bit (gf2x_add res mf e (r_size level1)) p ≡ byte_bit e p
added_digits res mf e p size zeros h =
    gf2x_add_lem res mf e (r_size level1) p (omega (arith, size)) (omega (arith, layout level1))
    ∙ ap (λ b. xor b (byte_bit e p)) (zeros p h)
    ∙ xor_comm false (byte_bit e p)
    ∙ xor-false (byte_bit e p)

ct_digits :
    (p : ℕ)
    → p < r_bits level1
    → (byte_bit ct.val0 p ≡ byte_bit found.val0 p) × (byte_bit ct.val1 p ≡ byte_bit found.val1 p)
unfolding add_pair multiply_pair
ct_digits p h =
    let zeros = λ (i : ℕ) (k : i < r_bits level1).
      masked_digits (replicate 1473 0) i zeros-IsPoly no_digit k in
    (
      added_digits (replicate 1473 0) _ found.val0 p size1473 zeros h,
      added_digits (replicate 1473 0) _ found.val1 p size1473 zeros h,
    )

few : ones (byte_bit ct.val0) (r_bits level1) ≤ 134
few =
    let weight : ones (byte_bit ct.val0) (r_bits level1) ≡ r_bits_vector_weight level1 found.val0 =
      ones_cong (byte_bit ct.val0) (byte_bit found.val0) (r_bits level1) (λ p h. (ct_digits p h).0)
      ∙ sym (r_bits_vector_weight_lem level1 found.val0) in
    bounded _ _ _ weight found_lem.1
  where
    bounded : (a b d : ℕ) → a ≡ b → b + d ≡ t1 level1 → a ≤ 134
    bounded a b d e sum = unfold t1 in omega arith

first_place : (xs : List ℕ) (i : ℕ) → ((k : ℕ) → get_or xs k 0 ≡ 0) → byte_bit (1 ∷ xs) i ≡ (i == 0)
unfolding byte_bit
first_place xs i zeros = elim (lt_or_le i 8) [
  | inl h ↦
      ap (λ t. bit (get_or (1 ∷ xs) t 0) (i % 8)) {x = i / 8} {y = 0} (omega arith)
      ∙ bit-pow 0 (i % 8)
      ∙ ground arith
  | inr g ↦ ap (λ t. bit t (i % 8)) (later (i / 8) (omega arith)) ∙ bit-zero (i % 8) ∙ ground arith
]
  where
    later : (k : ℕ) → 0 < k → get_or (1 ∷ xs) k 0 ≡ 0
    later zero h = absurd (omega arith)
    later (suc k) h = zeros k

agreement_example :
    (ss : List ℕ) × (crypto_kem_enc level1 numbers scratch blank blank blank [] ≡ ok (ct, ss))
    × (crypto_kem_dec level1 numbers no_digits scratch blank blank ct unit_key ≡ ok ss)
agreement_example =
    agreement level1 numbers no_digits unit_key (two_polys-ArePolys 1 0 (omega arith) (omega arith))
      unit_key-AreSparse
      (unfold r_bits in unfold threshold_coeff0 in unfold threshold_coeff1 in omega arith) []
      (replicate 1473 0) scratch scratch blank found blank blank blank blank mask_sampled
      zeros-IsPoly blank-ArePolys scratch-IsScratch scratch-IsScratch size1473 size1473
      (size1473, size1473) (size1473, size1473) errors_hashed digits solved
  where
    one : (i : ℕ) → (digits_of unit_key.bin).poly0 i ≡ (i == 0)
    one i =
        unfold digits_of in
        first_place (replicate 1472 0) i (λ k. get_or-replicate {A = ℕ} 1472 0 k)

    none : (i : ℕ) → (digits_of unit_key.bin).poly1 i ≡ false
    none i = unfold digits_of in no_digit i

    small : ones (digits_of ct).poly0 (r_bits level1) ≤ 134
    small = unfold digits_of in few

    first_digit : (p : ℕ) → p < r_bits level1 → (digits_of ct).poly0 p ≡ byte_bit found.val0 p
    first_digit p h = unfold digits_of in (ct_digits p h).0

    digits :
        HasDigits level1 found
          (reference level1 (digits_of ct) (digits_of unit_key.bin) (places_of unit_key.wlist))
    digits =
        let i = reference-IsFound (digits_of ct) (digits_of unit_key.bin) one none small in
        unfold places_of in
        record {
          digits0 = λ p h. sym (i.first p h ∙ first_digit p h);
          digits1 = λ p h. no_second p h ∙ sym (i.second p h);
        }

    solved :
        is_solved level1
          (digits_of ct)
          (digits_of unit_key.bin)
          (reference level1 (digits_of ct) (digits_of unit_key.bin) (places_of unit_key.wlist))
        ≡ true
    solved =
        unfold places_of in reference-solved (digits_of ct) (digits_of unit_key.bin) one none small
