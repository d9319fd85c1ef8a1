-- ===== src/Sampling.antt =====
-- prf/sampling.c, prf/sampling.h and prf/sampling_portable.c: numbers below a bound, vectors of
-- `R_BITS` digits and sparse vectors, from the bytes of the pseudorandom function.
pub mod Bounded
pub mod First
pub mod SetBits
pub mod Sparse
pub mod Uniform
use bike_modify.Base.{ℕ, zero, suc, ◌+◌, ◌-◌, ◌*◌, ◌/◌, ◌%◌, ◌^◌, bit_and, bit_or, bit_xor}
use bike_modify.Base.{
  List, get_or, set, fill, for_range, replicate, Bool, true, false, ltb, leb, ◌==◌, to_nat,
  if◌then◌else◌,
}
use bike_modify.Word.{◌>>>◌, shl, mask}
use bike_modify.Params.{Level, r_bits, r_size, max_weight}
use bike_modify.Utilities.{bit_scan_reverse, secure_cmp32, r_bits_vector_weight}
use bike_modify.Result.{Result, ok, fail, out_of_rounds, ◌>>=◌, ◌>>◌, assert}
use bike_modify.Prf.{Aes, State, aes_ctr_prf, init_aes_ctr_prf_state, max_aes_invokation}
use bike_modify.Bytes.{memset}

-- The `uint32_t` that 4 bytes hold.
unfoldable pub word32 : List ℕ → ℕ
word32 bs =
    get_or bs 0 0 % 2 ^ 8
    + 2 ^ 8 * (get_or bs 1 0 % 2 ^ 8)
    + 2 ^ 16 * (get_or bs 2 0 % 2 ^ 8)
    + 2 ^ 24 * (get_or bs 3 0 % 2 ^ 8)

-- A generator gives out at most 2^36 bytes, so that no loop that draws 4 of them has more rounds.
abbrev pub most_rounds : ℕ
most_rounds = 2 ^ 34 + 1

module _ (aes : Aes) where
  -- The mask and the test of a round, and the next round.
  unfoldable pub keep_or_retry :
      ℕ → (State aes → Result (ℕ × State aes)) → List ℕ × State aes → Result (ℕ × State aes)
  keep_or_retry len retry d =
      let rand_pos = bit_and (word32 d.0) (mask (bit_scan_reverse len)) in
      elim (ltb rand_pos len) [ true ↦ ok (rand_pos, d.1) | false ↦ retry d.1 ]

  -- The loop of `get_rand_mod_len`, with a count of the rounds that are allowed.
  unfoldable pub rand_below : ℕ → ℕ → State aes → Result (ℕ × State aes)
  rand_below zero len s = out_of_rounds
  rand_below (suc rounds) len s = aes_ctr_prf aes s 4 >>= keep_or_retry len (rand_below rounds len)

  unfoldable pub get_rand_mod_len : ℕ → State aes → Result (ℕ × State aes)
  get_rand_mod_len len s = rand_below most_rounds len s

-- The loop of `is_new` from `i` on, with the rounds left: 1 if none of the values is `wlist[ctr]`.
unfoldable pub is_new_from : ℕ → ℕ → List ℕ → ℕ → ℕ
is_new_from zero i wlist ctr = 1
is_new_from (suc n) i wlist ctr =
    let rest = is_new_from n (i + 1) wlist ctr in
    if get_or wlist i 0 == get_or wlist ctr 0 then 0 else rest

unfoldable pub is_new : List ℕ → ℕ → ℕ
is_new wlist ctr = is_new_from ctr 0 wlist ctr

-- Step 2 of `secure_set_bits`, for index `j` and word `qw`. `qw_pos[j]` and `bit_pos[j]` of step 1 are
-- written out.
unfoldable pub set_bit : List ℕ → ℕ → ℕ → ℕ → ℕ
set_bit wlist qw j tmp =
    let qw_pos = get_or wlist j 0 >>> 6 in
    let bit_pos = shl 64 1 (bit_and (get_or wlist j 0) 63) in
    let m = (2 ^ 64 - 1 + to_nat (secure_cmp32 qw_pos qw == 0)) % 2 ^ 64 in
    bit_or tmp (bit_and bit_pos m)

-- What `secure_set_bits` does after its assertions.
unfoldable pub set_bits : List ℕ → List ℕ → ℕ → ℕ → List ℕ
set_bits a wlist a_len_bytes weight =
    fill (a_len_bytes / 8) 0
      (λ qw b. bit_or (get_or b qw 0) (for_range weight 0 (set_bit wlist qw) 0)) a

unfoldable pub secure_set_bits : Level → List ℕ → List ℕ → ℕ → ℕ → Result (List ℕ)
secure_set_bits l a wlist a_len_bytes weight =
    assert (a_len_bytes % 8 == 0)
    >> assert (leb weight (max_weight l))
    >> ok (set_bits a wlist a_len_bytes weight)

module _ (aes : Aes) where
  -- What follows the draw in a round: the index is stored, and counts if it is new.
  unfoldable pub store_or_retry :
      (List ℕ → ℕ → State aes → Result (List ℕ × State aes))
      → ℕ
      → List ℕ
      → ℕ
      → ℕ × State aes
      → Result (List ℕ × State aes)
  store_or_retry retry weight wlist ctr d =
      let wlist' = set wlist ctr d.0 in
      let ctr' = ctr + is_new wlist' ctr in
      elim (ltb ctr' weight) [ true ↦ retry wlist' ctr' d.1 | false ↦ ok (wlist', d.1) ]

  -- The loop of `generate_sparse_rep`, with a count of the rounds that are allowed.
  unfoldable pub fill_wlist : ℕ → ℕ → ℕ → List ℕ → ℕ → State aes → Result (List ℕ × State aes)
  fill_wlist zero weight len wlist ctr s = out_of_rounds
  fill_wlist (suc rounds) weight len wlist ctr s =
      get_rand_mod_len aes len s >>= store_or_retry (fill_wlist rounds weight len) weight wlist ctr

  -- What `generate_sparse_rep` does after the loop.
  unfoldable pub assign_values :
      Level → List ℕ → ℕ → ℕ → ℕ → List ℕ × State aes → Result (List ℕ × List ℕ × State aes)
  assign_values l a weight len padded_len d =
      secure_set_bits l (memset a 0 (((len + 7) % 2 ^ 32) >>> 3)) d.0 padded_len weight >>= λ b.
      ok (b, d.0, d.1)

  -- `a`, `wlist` and the state. The length in bits is computed in 32 bits.
  unfoldable pub generate_sparse_rep :
      Level → List ℕ → List ℕ → ℕ → ℕ → ℕ → State aes → Result (List ℕ × List ℕ × State aes)
  generate_sparse_rep l a wlist weight len padded_len s =
      assert (padded_len % 64 == 0)
      >> assert (leb len (padded_len * 8 % 2 ^ 32))
      >> fill_wlist most_rounds weight len wlist 0 s
      >>= assign_values l a weight len padded_len

-- `must_be_odd_t`
pub data MustBeOdd : Type 0 where
  no_restriction must_be_odd : MustBeOdd

module _ (l : Level) where
  unfoldable pub make_odd_weight : List ℕ → List ℕ
  make_odd_weight r =
      if r_bits_vector_weight l r % 2 == 1 then r else set r 0 (bit_xor (get_or r 0 0) 1)

  -- `r->raw[R_SIZE - 1] &= MASK(R_BITS + 8 - (R_SIZE * 8))`
  unfoldable pub mask_top : List ℕ → List ℕ
  mask_top r =
      set r (r_size l - 1)
        (bit_and (get_or r (r_size l - 1) 0) (mask (r_bits l + 8 - r_size l * 8)))

  unfoldable pub restrict : MustBeOdd → List ℕ → List ℕ
  restrict no_restriction r = r
  restrict must_be_odd r = make_odd_weight r

  module _ (aes : Aes) where
    -- What follows the draw of the bytes.
    unfoldable pub to_r_bits : MustBeOdd → List ℕ × State aes → Result (List ℕ × State aes)
    to_r_bits odd d = ok (restrict odd (mask_top d.0), d.1)

    unfoldable pub sample_uniform_r_bits_with_fixed_prf_context :
        State aes → MustBeOdd → Result (List ℕ × State aes)
    sample_uniform_r_bits_with_fixed_prf_context s odd =
        aes_ctr_prf aes s (r_size l) >>= to_r_bits odd

    unfoldable pub sample_uniform_r_bits : List ℕ → MustBeOdd → Result (List ℕ)
    sample_uniform_r_bits seed odd = init_aes_ctr_prf_state aes max_aes_invokation seed >>= λ s.
        sample_uniform_r_bits_with_fixed_prf_context s odd >>= λ d. ok d.0
