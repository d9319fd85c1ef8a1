-- ===== src/Decode.antt =====
-- decode/decode.c: `compute_syndrome`, `recompute_syndrome`, `get_threshold` and the loop of `decode`.
-- None of the calls in them fails. The equations that the first iteration builds at its end are kept
-- in local arrays that nothing reads: they are in Equations, and the loop here is without them.
pub mod Success
pub mod Polynomial
pub mod Syndrome
pub mod Vectors
pub mod Solves
pub mod Reference
pub mod Steps
pub mod Shown
pub mod Refines
use bike_modify.Base.{
  ℕ, zero, suc, ◌+◌, ◌-◌, ◌*◌, ◌/◌, ◌^◌, ◌%◌, List, replicate, fill, Bool, true, false, ◌==◌,
}
use bike_modify.Bytes.{byte_of, memcpy}
use bike_modify.Params.{Level, r_size, r_padded_qw, dv, max_it, threshold_coeff0, threshold_coeff1}
use bike_modify.Utilities.{r_bits_vector_weight}
use bike_modify.Duplicate.{dup}
use bike_modify.Gf2x.{gf2x_add, gf2x_mod_mul}
use bike_modify.FindErr.{Pair, find_err1, find_err2}

-- The first `n` bytes of a word array.
unfoldable pub bytes_of : List ℕ → ℕ → List ℕ
bytes_of qw n = fill n 0 (λ j r. byte_of qw j) (replicate n 0)

-- `sk_t`
pub record SecretKey : Type 0 where
  pub bin : Pair
  pub wlist : Pair
  pub sigma0 : List ℕ
  pub sigma1 : List ℕ

module _ (l : Level) where
  -- `padded_r_t`: the bytes of a polynomial in an array of words, with zeros behind them.
  unfoldable pub pad : List ℕ → List ℕ
  pad raw = memcpy (replicate (r_padded_qw l) 0) raw (r_size l)

  -- `gf2x_mod_mul` on two padded polynomials, and the polynomial of the result.
  unfoldable pub mod_mul : List ℕ → List ℕ → List ℕ
  mod_mul a b = bytes_of (gf2x_mod_mul l (pad a) (pad b)) (r_size l)

  unfoldable pub compute_syndrome : List ℕ → Pair → SecretKey → List ℕ
  compute_syndrome syndrome ct sk =
      let pad_s0 = mod_mul ct.val0 sk.bin.val0 in
      let pad_s1 = mod_mul ct.val1 sk.bin.val1 in
      dup l (memcpy syndrome (gf2x_add pad_s0 pad_s0 pad_s1 (r_size l)) (r_size l))

  unfoldable pub recompute_syndrome : List ℕ → Pair → SecretKey → Pair → List ℕ
  recompute_syndrome syndrome ct sk splitted_e =
      let tmp_ct : Pair = record {
        val0 = gf2x_add ct.val0 ct.val0 splitted_e.val0 (r_size l);
        val1 = gf2x_add ct.val1 ct.val1 splitted_e.val1 (r_size l);
      } in
      compute_syndrome syndrome tmp_ct sk

  unfoldable pub syndrome_weight : List ℕ → ℕ
  syndrome_weight s = r_bits_vector_weight l (bytes_of s (r_size l))

  -- The test at the end of `decode`.
  unfoldable pub is_decoded : List ℕ → Bool
  unfolding syndrome_weight
  is_decoded s = syndrome_weight s == 0

  -- The `memset` of `e`, and the arrays that are declared with zeros.
  unfoldable pub no_errors : Pair
  no_errors = record { val0 = replicate (r_size l) 0; val1 = replicate (r_size l) 0 }

  -- `((DV + 1) / 2) + 1`
  unfoldable pub masked_threshold : ℕ
  masked_threshold = (dv l + 1) / 2 + 1

  -- The variables of `decode` that one iteration passes on to the next.
  pub record Iteration : Type 0 where
    pub e : Pair
    pub black_e : Pair
    pub gray_e : Pair
    pub s : List ℕ

  -- `THRESHOLD_COEFF0 + (THRESHOLD_COEFF1 * syndrome_weight)`, rounded down to 8 bits. The source
  -- computes it in floating point, which gives the same for every weight up to `R_BITS`.
  unfoldable pub get_threshold : List ℕ → ℕ
  get_threshold s = (threshold_coeff0 l + threshold_coeff1 l * syndrome_weight s) / 10 ^ 7 % 2 ^ 8

  module _ (over : ℕ → ℕ → ℕ) (ct : Pair) (sk : SecretKey) where
    -- Step I.
    unfoldable pub flip_step : Iteration → Iteration
    flip_step it =
        let (e, black, gray) =
          find_err1 l over it.s it.e it.black_e it.gray_e sk.wlist (get_threshold it.s) in
        record { e = e; black_e = black; gray_e = gray; s = recompute_syndrome it.s ct sk e }

    -- Steps II and III, each with the mask `pos_e`.
    unfoldable pub masked_step : Pair → Iteration → Iteration
    masked_step pos_e it =
        let e = find_err2 l over it.s it.e pos_e sk.wlist masked_threshold in
        record it { e = e; s = recompute_syndrome it.s ct sk e }

    -- The body of the loop of `decode`: `if(iter >= 1) continue` leaves steps II and III to the
    -- first iteration.
    unfoldable pub iteration : ℕ → Iteration → Iteration
    iteration zero it =
        let one = flip_step it in
        let two = masked_step one.black_e one in masked_step two.gray_e two
    iteration (suc iter) it = flip_step it

    -- The loop from `iter` on, with the iterations left.
    unfoldable pub iterations : ℕ → ℕ → Iteration → Iteration
    iterations zero iter it = it
    iterations (suc n) iter it = iterations n (iter + 1) (iteration iter it)

    -- The errors, which the caller uses on failure too, and whether `decode` returns `SUCCESS`.
    unfoldable pub decode : List ℕ → Pair × Bool
    decode original_s =
        let last = iterations (max_it l) 0 (record {
          e = no_errors;
          black_e = no_errors;
          gray_e = no_errors;
          s = dup l original_s;
        }) in
        (last.e, is_decoded last.s)
