-- ===== src/Tests/Sampling.antt =====
-- Inputs for the sampling and the arithmetic.
use native.Mathlib.Nat.{one-le-pow}
use bike_modify.Base.{
  ℕ, zero, suc, ◌+◌, ◌*◌, ◌^◌, ◌≤◌, ◌<◌, ◌≡◌, refl, arith, List, [], ◌∷◌, replicate,
  length-replicate,
}
use bike_modify.Base.{xor, false, for_range, fill}
use bike_modify.Word.{IsWords, bit_at}
use bike_modify.Bytes.{byte_bit}
use bike_modify.Params.{level1, r_bits, r_qw, r_size, max_weight}
use bike_modify.Base.{◌⊎◌, ◌≢◌, ◌%◌}
use bike_modify.Result.{ok, assertion_failed}
use bike_modify.Prf.{State}
use bike_modify.Prf.Draw.{IsAt}
use bike_modify.Sampling.{generate_sparse_rep, get_rand_mod_len, secure_set_bits, must_be_odd}
use bike_modify.Sampling.{sample_uniform_r_bits_with_fixed_prf_context}
use bike_modify.Sampling.Bounded.{IsDrawn, get_rand_mod_len_lem}
use bike_modify.Sampling.SetBits.{HasListed, secure_set_bits_lem}
use bike_modify.Sampling.Sparse.{IsGenerated, generate_sparse_rep_lem}
use bike_modify.Sampling.Uniform.{IsUniform, sample_uniform_r_bits_lem}
use bike_modify.Gf2x.{
  gf2x_add, gf2x_mul_1x1, mul_table, mul_digits, mul_last, karatzuba, karatzuba_add1,
  karatzuba_add2, red,
}
use bike_modify.Gf2x.Add.{gf2x_add_lem}
use bike_modify.Gf2x.Reduce.{red_lem}
use bike_modify.Tests.Decoder.{get_or-replicate-le}
use bike_modify.Tests.Prf.{counting, running, running-IsAt}

-- A state with many invocations left.
abbrev fresh : State counting
fresh = record running { rem_invokations = 1000 }

fresh-IsAt : IsAt counting fresh 4
fresh-IsAt = record {
  high = refl;
  room = omega arith;
  size = refl;
  place = omega arith;
  within = omega arith;
  held = λ i p q. grind arith;
}

zeros-IsWords : (n w : ℕ) → 0 < w → IsWords w (replicate n 0)
zeros-IsWords n w h i = omega (arith, get_or-replicate-le n 0 i, one-le-pow w 2 (omega arith))

get_rand_mod_len_lem_example : IsDrawn counting 100 4 (get_rand_mod_len counting 100 running)
get_rand_mod_len_lem_example = get_rand_mod_len_lem counting 100 4 running running-IsAt

most_errors : max_weight level1 ≡ 134
unfolding max_weight
most_errors = refl

generate_sparse_rep_lem_example :
    IsGenerated counting
      (replicate 256 0)
      71
      11779
      2048
      (generate_sparse_rep counting level1 (replicate 256 0) (replicate 71 0) 71 11779 2048 fresh)
generate_sparse_rep_lem_example =
    generate_sparse_rep_lem counting (replicate 256 0) 71 11779 2048 level1
      (zeros-IsWords 256 64 (omega arith)) (omega (arith, length-replicate {A = ℕ} 256 0))
      (omega arith) (omega arith) (omega arith) (omega (arith, most_errors)) (replicate 71 0) 4
      fresh fresh-IsAt (omega arith) (length-replicate {A = ℕ} 71 0)

secure_set_bits_lem_example :
    ((b : List ℕ) × (secure_set_bits level1 (replicate 256 0) (3 ∷ 700 ∷ []) 2048 2 ≡ ok b)
      × HasListed level1 (replicate 256 0) (3 ∷ 700 ∷ []) 2048 2 b)
    ⊎ ((secure_set_bits level1 (replicate 256 0) (3 ∷ 700 ∷ []) 2048 2 ≡ assertion_failed)
        × ((2048 % 8 ≢ 0) ⊎ (max_weight level1 < 2)))
secure_set_bits_lem_example =
    secure_set_bits_lem level1 (replicate 256 0) (3 ∷ 700 ∷ []) 2048 2 two_words
      (omega (arith, length-replicate {A = ℕ} 256 0)) (omega arith)
  where
    two_words : IsWords 32 (3 ∷ 700 ∷ [])
    two_words zero = omega arith
    two_words (suc zero) = omega arith
    two_words (suc (suc i)) = omega arith

sample_uniform_r_bits_lem_example :
    (r : List ℕ) × (t : State counting) × (sample_uniform_r_bits_with_fixed_prf_context level1
        counting fresh must_be_odd
      ≡ ok (r, t))
    × IsUniform level1 must_be_odd r
    × IsAt counting t (4 + r_size level1)
unfolding r_size
sample_uniform_r_bits_lem_example =
    sample_uniform_r_bits_lem level1 counting fresh 4 must_be_odd fresh-IsAt (ground arith)

gf2x_add_lem_example :
    byte_bit (gf2x_add (replicate 3 0) (5 ∷ 6 ∷ 7 ∷ []) (1 ∷ 2 ∷ 3 ∷ []) 3) 17
    ≡ xor (byte_bit (5 ∷ 6 ∷ 7 ∷ []) 17) (byte_bit (1 ∷ 2 ∷ 3 ∷ []) 17)
gf2x_add_lem_example =
    gf2x_add_lem (replicate 3 0) (5 ∷ 6 ∷ 7 ∷ []) (1 ∷ 2 ∷ 3 ∷ []) 3 17 (omega arith) (omega arith)

abbrev product : List ℕ
product = replicate 512 6

red_lem_example :
    (5 < r_bits level1
      → bit_at (red level1 product) 5 ≡ xor (bit_at product 5) (bit_at product (5 + r_bits level1)))
    × (r_bits level1 ≤ 5 → 5 < 64 * (2 * r_qw level1) → bit_at (red level1 product) 5 ≡ false)
unfolding r_qw
red_lem_example =
    red_lem level1 product (omega (arith, length-replicate {A = ℕ} 512 6))
      (λ i. omega (arith, get_or-replicate-le 512 6 i)) 5

-- (x + 1)^2 = x^2 + 1, and the square of x^63 is x^126.
multiply_runs :
    (gf2x_mul_1x1 3 3 ≡ 5 ∷ 0 ∷ [])
    × (gf2x_mul_1x1 (2 ^ 63) (2 ^ 63) ≡ 0 ∷ 2 ^ 62 ∷ [])
    × (gf2x_mul_1x1 (2 ^ 60 + 1) 11 ≡ 12682136550675316747 ∷ 0 ∷ [])
unfolding gf2x_mul_1x1 mul_table mul_digits mul_last for_range
multiply_runs = (refl, refl, refl)

-- The square of x^64 + x is x^128 + x^2.
karatzuba_runs : karatzuba 2 (2 ∷ 1 ∷ []) (2 ∷ 1 ∷ []) 2 ≡ 4 ∷ 0 ∷ 1 ∷ 0 ∷ []
unfolding karatzuba karatzuba_add1 karatzuba_add2 gf2x_mul_1x1 mul_table mul_digits mul_last
    for_range fill
karatzuba_runs = refl
