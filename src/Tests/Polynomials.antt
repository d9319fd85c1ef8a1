-- ===== src/Tests/Polynomials.antt =====
-- Inputs for the polynomial arithmetic and what is built on it.
use bike_modify.Base.{
  ℕ, zero, suc, ◌+◌, ◌-◌, ◌*◌, ◌/◌, ◌%◌, ◌^◌, ◌<◌, ◌≤◌, ◌≡◌, ◌↔◌, refl, ap, ◌∙◌, arith,
}
use bike_modify.Base.{
  List, [], ◌∷◌, ◌++◌, true, for_range, set, length, get_or, replicate, get_or-replicate,
}
use bike_modify.Bits.{bit, bit-zero}
use bike_modify.Word.{IsWords, bit_at}
use bike_modify.Bytes.{byte_bit}
use bike_modify.Params.{level1, r_bits, r_qw, r_size, n_size, r_padded_qw, t1}
use bike_modify.Utilities.{r_bits_vector_weight}
use bike_modify.Poly.{product, cyclic_product}
use bike_modify.FindErr.{Pair}
use bike_modify.Gf2x.{gf2x_mul_1x1, karatzuba, gf2x_mod_mul}
use bike_modify.Gf2x.Word.{gf2x_mul_1x1_lem}
use bike_modify.Gf2x.Blocks.{IsProductOf}
use bike_modify.Gf2x.Karatzuba.{karatzuba_lem}
use bike_modify.Gf2x.Cyclic.{IsPadded, gf2x_mod_mul_lem}
use bike_modify.Decode.{SecretKey, bytes_of, decode, compute_syndrome}
use bike_modify.Decode.Polynomial.{IsPoly}
use bike_modify.Decode.Syndrome.{ArePolys, syndrome_digit, compute_syndrome_lem}
use bike_modify.Kem.{add_pair, multiply_pair, public_key, split_e}
use bike_modify.Kem.Honest.{honest_syndrome}
use bike_modify.Kem.Split.{split_e_lem}
use bike_modify.Kem.Hashed.{function_h_lem}
use bike_modify.Utilities.Weight.{ones}
use bike_modify.Decode.Solves.{Solves, decode-Solves, decode-ArePolys}
use bike_modify.Equations.{and_index, note_byte, note_digit}
use bike_modify.Equations.Rows.{common, and_index_lem}
use bike_modify.Tests.Decoder.{x86_shift, get_or-replicate-le}
use bike_modify.Tests.Kem.{key}
use bike_modify.Tests.RoundTrip.{
  numbers, scratch, blank, masked, found, scratch-IsScratch, errors_hashed, size1473,
}

gf2x_mul_1x1_lem_example :
    IsWords 64 (gf2x_mul_1x1 (2 ^ 63 + 5) (2 ^ 62 + 3))
    × ((p : ℕ)
        → p < 128
        → bit_at (gf2x_mul_1x1 (2 ^ 63 + 5) (2 ^ 62 + 3)) p
          ≡ product 64 (bit (2 ^ 63 + 5)) (bit (2 ^ 62 + 3)) p)
gf2x_mul_1x1_lem_example = gf2x_mul_1x1_lem (2 ^ 63 + 5) (2 ^ 62 + 3) (omega arith) (omega arith)

pair-IsWords : (x y : ℕ) → x < 2 ^ 64 → y < 2 ^ 64 → IsWords 64 (x ∷ y ∷ [])
pair-IsWords x y h k zero = h
pair-IsWords x y h k (suc zero) = k
pair-IsWords x y h k (suc (suc i)) = omega arith

abbrev left : List ℕ
left = 3 ∷ 2 ^ 63 ∷ []

abbrev right : List ℕ
right = 7 ∷ 2 ^ 62 ∷ []

karatzuba_lem_example : IsProductOf (2 ^ 1) left right (karatzuba 2 left right (2 ^ 1))
karatzuba_lem_example =
    karatzuba_lem 2 1 left right (omega arith) refl refl
      (pair-IsWords 3 (2 ^ 63) (omega arith) (omega arith))
      (pair-IsWords 7 (2 ^ 62) (omega arith) (omega arith))

abbrev padded : ℕ → List ℕ
padded x = x ∷ replicate 255 0

padded-IsPadded : (x : ℕ) → x < 2 ^ 64 → IsPadded level1 (padded x)
padded-IsPadded x h = record {
  size = size;
  words = words;
  past = λ p k.
      unfold bit_at in
      ap (λ t. bit t (p % 64)) (later (p / 64) (omega (arith, large p k))) ∙ bit-zero (p % 64);
}
  where
    size : length (padded x) ≡ r_padded_qw level1
    size = unfold r_padded_qw in refl

    words : IsWords 64 (padded x)
    words zero = h
    words (suc i) = rw (get_or-replicate {A = ℕ} 255 0 i) (omega arith)

    later : (i : ℕ) → 0 < i → get_or (padded x) i 0 ≡ 0
    later zero k = absurd (omega arith)
    later (suc i) k = get_or-replicate {A = ℕ} 255 0 i

    large : (p : ℕ) → r_bits level1 ≤ p → 64 ≤ p
    large p k = unfold r_bits in omega arith

gf2x_mod_mul_lem_example :
    bit_at (gf2x_mod_mul level1 (padded 13) (padded 6)) 5
    ≡ cyclic_product (r_bits level1) (bit_at (padded 13)) (bit_at (padded 6)) 5
gf2x_mod_mul_lem_example =
    gf2x_mod_mul_lem level1 (padded 13) (padded 6) 5 (padded-IsPadded 13 (omega arith))
      (padded-IsPadded 6 (omega arith)) (unfold r_bits in omega arith)

-- A polynomial of at most 8 digits.
abbrev pub poly : ℕ → List ℕ
poly x = x ∷ replicate 1472 0

pub poly-IsPoly : (x : ℕ) → x < 2 ^ 8 → IsPoly level1 (poly x)
poly-IsPoly x h = record {
  size = unfold r_size in refl;
  bytes = words;
  past = λ p k.
      unfold byte_bit in
      (ap (λ t. bit t (p % 8)) (later (p / 8) (omega (arith, large p k))) ∙ bit-zero (p % 8));
}
  where
    words : IsWords 8 (poly x)
    words zero = h
    words (suc i) = rw (get_or-replicate {A = ℕ} 1472 0 i) (omega arith)

    later : (i : ℕ) → 0 < i → get_or (poly x) i 0 ≡ 0
    later zero k = absurd (omega arith)
    later (suc i) k = get_or-replicate {A = ℕ} 1472 0 i

    large : (p : ℕ) → r_bits level1 ≤ p → 8 ≤ p
    large p k = unfold r_bits in omega arith

abbrev pub two_polys : ℕ → ℕ → Pair
two_polys x y = record { val0 = poly x; val1 = poly y }

pub two_polys-ArePolys : (x y : ℕ) → x < 2 ^ 8 → y < 2 ^ 8 → ArePolys level1 (two_polys x y)
two_polys-ArePolys x y h k = record { first = poly-IsPoly x h; second = poly-IsPoly y k }

abbrev small_key : SecretKey
small_key = record key { bin = two_polys 5 9 }

compute_syndrome_lem_example :
    (length (compute_syndrome level1 (replicate 555 0) (two_polys 3 129) small_key)
      ≡ 3 * r_qw level1)
    × IsWords 64 (compute_syndrome level1 (replicate 555 0) (two_polys 3 129) small_key)
    × ((p : ℕ)
        → p < 64 * (3 * r_qw level1 - 1)
        → bit_at (compute_syndrome level1 (replicate 555 0) (two_polys 3 129) small_key) p
          ≡ syndrome_digit level1 (two_polys 3 129) (two_polys 5 9) (p % r_bits level1))
compute_syndrome_lem_example =
    compute_syndrome_lem level1 (replicate 555 0) (two_polys 3 129) small_key (unfold r_qw in refl)
      (λ i. rw (get_or-replicate {A = ℕ} 555 0 i) (omega arith))
      (two_polys-ArePolys 3 129 (omega arith) (omega arith))
      (two_polys-ArePolys 5 9 (omega arith) (omega arith))

abbrev honest_key : SecretKey
honest_key = record key {
  bin = record {
    val0 = bytes_of (padded 5) (r_size level1);
    val1 = bytes_of (padded 9) (r_size level1);
  };
}

honest_syndrome_example :
    compute_syndrome level1
      (replicate 555 0)
      (add_pair level1 numbers blank
        (multiply_pair level1 numbers
          (poly 77)
          (public_key level1 numbers (padded 5) (padded 9) (poly 7)))
        (two_polys 3 129))
      honest_key
    ≡ compute_syndrome level1 (replicate 555 0) (two_polys 3 129) honest_key
honest_syndrome_example =
    honest_syndrome level1 numbers (padded 5) (padded 9) (poly 7) (poly 77)
      (padded-IsPadded 5 (omega arith)) (padded-IsPadded 9 (omega arith))
      (poly-IsPoly 7 (omega arith)) (poly-IsPoly 77 (omega arith)) blank (two_polys 3 129) size1473
      size1473 (two_polys-ArePolys 3 129 (omega arith) (omega arith)) key.wlist key.sigma0
      key.sigma1 (replicate 555 0)

abbrev full : List ℕ
full = replicate 2945 255

get_or-full : (n i : ℕ) → get_or (replicate n 255) i 0 < 2 ^ 8
get_or-full zero i = omega arith
get_or-full (suc n) zero = omega arith
get_or-full (suc n) (suc i) = get_or-full n i

split_e_lem_example :
    ArePolys level1 (split_e level1 blank full)
    × ((p : ℕ)
        → p < r_bits level1
        → (byte_bit (split_e level1 blank full).val0 p ≡ byte_bit full p)
          × (byte_bit (split_e level1 blank full).val1 p ≡ byte_bit full (r_bits level1 + p)))
split_e_lem_example =
    split_e_lem level1 blank full size1473 (unfold n_size in refl) (get_or-full 2945)

function_h_lem_example :
    ArePolys level1 found
    × (r_bits_vector_weight level1 found.val0 + r_bits_vector_weight level1 found.val1 ≡ t1 level1)
function_h_lem_example =
    function_h_lem level1 blank size1473 numbers scratch masked found scratch-IsScratch
      errors_hashed

decode-Solves_example :
    let found = decode level1 x86_shift (two_polys 3 129) small_key (replicate 555 0) in
    (found.1 ≡ true) ↔ Solves level1 (two_polys 3 129) (two_polys 5 9) found.0
decode-Solves_example =
    decode-Solves level1 x86_shift (two_polys 3 129) small_key
      (two_polys-ArePolys 3 129 (omega arith) (omega arith))
      (two_polys-ArePolys 5 9 (omega arith) (omega arith)) (replicate 555 0) (unfold r_qw in refl)
      (λ i. rw (get_or-replicate {A = ℕ} 555 0 i) (omega arith))

decode-ArePolys_example :
    ArePolys level1 (decode level1 x86_shift (two_polys 3 129) small_key (replicate 555 5)).0
decode-ArePolys_example =
    decode-ArePolys level1 x86_shift (two_polys 3 129) small_key
      (two_polys-ArePolys 3 129 (omega arith) (omega arith))
      (two_polys-ArePolys 5 9 (omega arith) (omega arith)) (replicate 555 5) (unfold r_qw in refl)
      (λ i. omega (arith, get_or-replicate-le 555 5 i))

-- The common digits of the first two bytes are 1, 2 and 15; the third byte is left out.
abbrev gray_bytes : List ℕ
gray_bytes = 6 ∷ 128 ∷ 7 ∷ []

abbrev h_bytes : List ℕ
h_bytes = 255 ∷ 192 ∷ 7 ∷ []

and_index_runs :
    and_index 10 (replicate 30 0) gray_bytes h_bytes 3 0 0
    ≡ record { res = replicate 10 0 ++ (1 ∷ 2 ∷ 15 ∷ replicate 17 0); count = 3 }
unfolding and_index note_byte note_digit for_range
and_index_runs = refl

and_index_lem_example :
    (get_or
        (and_index 10 (replicate 30 0) gray_bytes h_bytes 3 5 1).res
        (10 + ones (common gray_bytes h_bytes) 15)
        0
      ≡ 15)
    × ((x : ℕ)
        → and_index 10 (replicate 30 0) (set gray_bytes 2 x) h_bytes 3 5 1
          ≡ and_index 10 (replicate 30 0) gray_bytes h_bytes 3 5 1)
unfolding byte_bit bit
and_index_lem_example =
    and_index_lem 10 (replicate 30 0) gray_bytes h_bytes 3 5 1 15 (omega arith) (omega arith)
      (omega arith) (omega arith) refl
