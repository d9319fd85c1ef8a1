-- ===== src/Tests/RoundTrip.antt =====
-- A whole encapsulation, with a cipher that gives zeros for the empty seed, and words that count for
-- the others.
use bike_modify.Base.{ℕ, zero, suc, ◌+◌, ◌-◌, ◌*◌, ◌/◌, ◌%◌, ◌^◌, ◌≡◌, refl, ap, ◌∙◌, arith}
use bike_modify.Base.{List, [], ◌∷◌, ◌++◌, length, replicate, Bool, true, false, get_or-replicate}
use bike_modify.Bits.{bit, bit-zero}
use bike_modify.Bytes.{byte_bit}
use bike_modify.Params.{level1, r_size, n_padded_size, t1, n_bits}
use bike_modify.Result.{ok, ◌>>=◌}
use bike_modify.Prf.{Aes, State, init_aes_ctr_prf_state, aes_ctr_prf, full_blocks, perform_aes}
use bike_modify.Sampling.{
  fill_wlist, most_rounds, get_rand_mod_len, rand_below, keep_or_retry, word32, store_or_retry,
  is_new, is_new_from, sample_uniform_r_bits, sample_uniform_r_bits_with_fixed_prf_context,
  to_r_bits, restrict, mask_top, no_restriction,
}
use bike_modify.Utilities.{bit_scan_reverse}
use bike_modify.Hash.{sha, store_words, store_word}
use bike_modify.FindErr.{Pair}
use bike_modify.Decode.Polynomial.{IsPoly}
use bike_modify.Decode.Syndrome.{ArePolys}
use bike_modify.Kem.{
  pair_bytes, translate_hash_to_seed, crypto_kem_enc, decapsulate_with, function_h, multiply_pair,
}
use bike_modify.Kem.Hashed.{IsScratch}
use bike_modify.Kem.Scratch.{errors, drawn, function_h-drawn}
use bike_modify.Kem.RoundTrip.{round_trip}
use bike_modify.Tests.Kem.{key}

abbrev word : ℕ → List ℕ
word n = n % 256 ∷ n / 256 % 256 ∷ 0 ∷ 0 ∷ []

abbrev is_some : List ℕ → Bool
is_some [] = false
is_some (x ∷ xs) = true

abbrev block : Bool → ℕ → List ℕ
block false lo = replicate 16 0
block true lo = word (4 * lo) ++ (word (4 * lo + 1) ++ (word (4 * lo + 2) ++ word (4 * lo + 3)))

pub length-block : (ks : Bool) (lo : ℕ) → length (block ks lo) ≡ 16
length-block false lo = refl
length-block true lo = refl

abbrev pub numbers : Aes
numbers = record {
  Ks = Bool;
  expand = λ seed. is_some seed;
  enc = λ ks lo hi. block ks lo;
  length-enc = λ ks lo hi. length-block ks lo;
}

abbrev pub up : ℕ → ℕ → List ℕ
up n zero = []
up n (suc k) = n ∷ up (n + 1) k

abbrev pub scratch : List ℕ
scratch = replicate 512 0

abbrev pub blank : Pair
blank = record { val0 = replicate 1473 0; val1 = replicate 1473 0 }

pub zeros-IsPoly : IsPoly level1 (replicate 1473 0)
unfolding r_size byte_bit
zeros-IsPoly = record {
  size = refl;
  bytes = λ i. rw (get_or-replicate {A = ℕ} 1473 0 i) (omega arith);
  past =
      λ p h. ap (λ t. bit t (p % 8)) (get_or-replicate {A = ℕ} 1473 0 (p / 8)) ∙ bit-zero (p % 8);
}

pub blank-ArePolys : ArePolys level1 blank
blank-ArePolys = record { first = zeros-IsPoly; second = zeros-IsPoly }

pub scratch-IsScratch : IsScratch level1 scratch
scratch-IsScratch = record {
  words = λ i. rw (get_or-replicate {A = ℕ} 512 0 i) (omega arith);
  room = unfold n_padded_size in omega arith;
}

pub mask_sampled : sample_uniform_r_bits level1 numbers [] no_restriction ≡ ok (replicate 1473 0)
unfolding sample_uniform_r_bits r_size init_aes_ctr_prf_state
    sample_uniform_r_bits_with_fixed_prf_context aes_ctr_prf full_blocks perform_aes to_r_bits
    restrict mask_top
mask_sampled = refl

pub size1473 : length {A = ℕ} (replicate 1473 0) ≡ r_size level1
unfolding r_size
size1473 = refl

abbrev pub masked : Pair
masked = multiply_pair level1 numbers (replicate 1473 0) blank

-- The generator at the start of the key stream of a seed that is not empty.
abbrev start : State numbers
start = record {
  ctr0 = 0;
  ctr1 = 0;
  buffer = replicate 16 0;
  ks = true;
  rem_invokations = 2 ^ 32 - 1;
  pos = 16;
}

hash_some : (n : ℕ) (m : List ℕ) → is_some (translate_hash_to_seed (sha n m)) ≡ true
unfolding translate_hash_to_seed sha store_words store_word
hash_some n m = refl

first_indices :
    (t : State numbers) × (fill_wlist numbers most_rounds 134 23558 (replicate 134 0) 0 start
      ≡ ok (up 0 134, t))
unfolding fill_wlist get_rand_mod_len rand_below aes_ctr_prf full_blocks perform_aes keep_or_retry
    word32 bit_scan_reverse store_or_retry is_new is_new_from
first_indices = (_, refl)

indices_drawn : (t : State numbers) × (drawn level1 numbers masked ≡ ok (up 0 134, t))
unfolding drawn t1 n_bits init_aes_ctr_prf_state
indices_drawn =
    (first_indices.0, rw (hash_some (2 * r_size level1) (pair_bytes level1 masked)) first_indices.1)

abbrev pub found : Pair
found = errors level1 numbers scratch blank (up 0 134)

pub errors_hashed : function_h level1 numbers scratch blank masked ≡ ok found
errors_hashed =
    function_h-drawn level1 numbers scratch blank masked
    ∙ ap (λ r. r >>= λ d. ok (errors level1 numbers scratch blank d.0)) indices_drawn.1

round_trip_example :
    (ct : Pair) × (ss : List ℕ) × (crypto_kem_enc level1 numbers scratch blank blank blank []
      ≡ ok (ct, ss))
    × (decapsulate_with level1 numbers scratch blank blank ct key (found, true) ≡ ok ss)
round_trip_example =
    round_trip level1 numbers [] (replicate 1473 0) scratch scratch blank found blank blank blank
      blank key mask_sampled zeros-IsPoly blank-ArePolys scratch-IsScratch scratch-IsScratch
      size1473 size1473 (size1473, size1473) (size1473, size1473) errors_hashed
