-- ===== src/Kem.antt =====
-- kem.c: key generation, encapsulation and decapsulation. A call returns what it writes through its
-- pointers. `get_seeds` takes its bytes from outside, so that the seeds are arguments.
pub mod Reject
pub mod Honest
pub mod Written
pub mod Split
pub mod Hashed
pub mod Scratch
pub mod RoundTrip
pub mod Agreement
use bike_modify.Base.{ℕ, zero, suc, ◌+◌, ◌-◌, ◌*◌, ◌/◌, ◌^◌, ◌%◌, bit_and, bit_or}
use bike_modify.Base.{
  List, ◌++◌, get_or, set, take, replicate, fill, for_range, Bool, true, false, if◌then◌else◌, ltb,
  to_nat,
}
use bike_modify.Word.{◌>>>◌, shl, complement}
use bike_modify.Params.{
  Level, r_qw, r_bits, r_size, r_padded_qw, r_padded_size, n_bits, n_size, n_padded_size, dv, t1,
}
use bike_modify.Params.{last_r_byte_lead, last_r_byte_trail, last_r_byte_mask}
use bike_modify.Utilities.{secure_cmp, secure_cmp32, secure_l32_mask, r_bits_vector_weight}
use bike_modify.Result.{Result, ok, fail, out_of_rounds, ◌>>=◌}
use bike_modify.Prf.{Aes, State, init_aes_ctr_prf_state, max_aes_invokation}
use bike_modify.Sampling.{
  generate_sparse_rep, sample_uniform_r_bits, sample_uniform_r_bits_with_fixed_prf_context,
}
use bike_modify.Sampling.{no_restriction, must_be_odd}
use bike_modify.Hash.{sha}
use bike_modify.Gf2x.{gf2x_add, gf2x_mod_mul}
use bike_modify.FindErr.{Pair}
use bike_modify.Decode.{SecretKey, bytes_of, pad, mod_mul, compute_syndrome, decode}

-- `ELL_K_SIZE`, the bytes of a shared secret; a seed has as many.
abbrev pub ell_k_size : ℕ
ell_k_size = 32

-- `translate_hash_to_ss` and `translate_hash_to_seed`
unfoldable pub translate_hash_to_ss : List ℕ → List ℕ
translate_hash_to_ss hash = take ell_k_size hash

unfoldable pub translate_hash_to_seed : List ℕ → List ℕ
translate_hash_to_seed hash = take ell_k_size hash

module _ (l : Level) where
  -- The `memcpy` of the first part, and the mask of its last byte.
  unfoldable pub low_part : List ℕ → List ℕ
  low_part e =
      let raw = take (r_size l) e in
      set raw (r_size l - 1) (bit_and (get_or raw (r_size l - 1) 0) (last_r_byte_mask l))

  -- The loop over the second part, the corner case and the mask of its last byte. `raw` is what the
  -- array holds before.
  unfoldable pub high_part : List ℕ → List ℕ → List ℕ
  high_part raw e =
      let shifted =
        for_range (n_size l - r_size l) (r_size l)
          (λ i r. set r (i - r_size l) (
            bit_or (shl 8 (get_or e i 0) (last_r_byte_trail l))
              (get_or e (i - 1) 0 >>> last_r_byte_lead l)))
          raw in
      let closed =
        if ltb (n_size l) (2 * r_size l)
        then set shifted (r_size l - 1) (get_or e (n_size l - 1) 0 >>> last_r_byte_lead l)
        else shifted in
      set closed (r_size l - 1) (bit_and (get_or closed (r_size l - 1) 0) (last_r_byte_mask l))

  unfoldable pub split_e : Pair → List ℕ → Pair
  split_e splitted_e e = record { val0 = low_part e; val1 = high_part splitted_e.val1 e }

  -- The bytes of `generic_param_n_t`.
  unfoldable pub pair_bytes : Pair → List ℕ
  pair_bytes p = p.val0 ++ p.val1

  -- `get_ss`
  unfoldable pub get_ss : List ℕ → List ℕ → Pair → List ℕ
  get_ss in0 in1 ct = translate_hash_to_ss (sha (4 * r_size l) ((in0 ++ in1) ++ pair_bytes ct))

  module _ (aes : Aes) where
    -- The products of `calc_pk`, and its sampling.
    unfoldable pub public_key : List ℕ → List ℕ → List ℕ → Pair
    public_key p_sk0 p_sk1 g = record {
      val0 = bytes_of (gf2x_mod_mul l (pad l g) p_sk1) (r_size l);
      val1 = bytes_of (gf2x_mod_mul l (pad l g) p_sk0) (r_size l);
    }

    unfoldable pub calc_pk : List ℕ → List ℕ → List ℕ → Result Pair
    calc_pk g_seed p_sk0 p_sk1 =
        sample_uniform_r_bits l aes g_seed must_be_odd >>= λ g. ok (public_key p_sk0 p_sk1 g)

    -- The local `e` and the `splitted_e` of the callers are not set before: `e` and `splitted_e` are
    -- what they hold.
    unfoldable pub function_h : List ℕ → Pair → Pair → Result Pair
    function_h e splitted_e mf =
        let seed = translate_hash_to_seed (sha (2 * r_size l) (pair_bytes mf)) in
        init_aes_ctr_prf_state aes max_aes_invokation seed >>= λ s.
        generate_sparse_rep aes l e (replicate (t1 l) 0) (t1 l) (n_bits l) (n_padded_size l) s
        >>= λ d. ok (split_e splitted_e (bytes_of d.0 (n_size l)))

    -- `gf2x_add` on both polynomials, into `p_ct`.
    unfoldable pub add_pair : Pair → Pair → Pair → Pair
    add_pair p_ct a b = record {
      val0 = gf2x_add p_ct.val0 a.val0 b.val0 (r_size l);
      val1 = gf2x_add p_ct.val1 a.val1 b.val1 (r_size l);
    }

    unfoldable pub multiply_pair : List ℕ → Pair → Pair
    multiply_pair m pk = record { val0 = mod_mul l m pk.val0; val1 = mod_mul l m pk.val1 }

    -- What `encrypt` writes to `ct` and to `mf`; `ct` is what the caller's buffer holds before.
    unfoldable pub encrypt : List ℕ → Pair → Pair → Pair → List ℕ → Result (Pair × Pair)
    encrypt e splitted_e ct pk seed = sample_uniform_r_bits l aes seed no_restriction >>= λ m.
        function_h e splitted_e (multiply_pair m pk) >>= λ e'.
        ok (add_pair ct (multiply_pair m pk) e', multiply_pair m pk)

    -- What `reencrypt` writes to `ce` and to `e2`.
    unfoldable pub reencrypt : List ℕ → Pair → Pair → Pair → Pair → Result (Pair × Pair)
    reencrypt local_e ce e2 e ct =
        let ce' = add_pair ce ct e in function_h local_e e2 ce' >>= λ e2'. ok (ce', e2')

    -- The sampling of one half of the secret key: the padded polynomial, its indices, the state.
    unfoldable pub sample_half : State aes → Result (List ℕ × List ℕ × State aes)
    sample_half s =
        generate_sparse_rep aes l (replicate (r_padded_qw l) 0) (replicate (dv l) 0) (dv l)
          (r_bits l) (r_padded_size l) s

    unfoldable pub secret_key : List ℕ × List ℕ → List ℕ × List ℕ → List ℕ → List ℕ → SecretKey
    secret_key h0 h1 sigma0 sigma1 = record {
      bin = record { val0 = bytes_of h0.0 (r_size l); val1 = bytes_of h1.0 (r_size l) };
      wlist = record { val0 = h0.1; val1 = h1.1 };
      sigma0 = sigma0;
      sigma1 = sigma1;
    }

    -- The public and the secret key, from the three seeds.
    unfoldable pub crypto_kem_keypair : List ℕ → List ℕ → List ℕ → Result (Pair × SecretKey)
    crypto_kem_keypair seed0 seed1 seed2 =
        init_aes_ctr_prf_state aes max_aes_invokation seed0 >>= λ h_prf.
        init_aes_ctr_prf_state aes max_aes_invokation seed2 >>= λ s_prf. sample_half h_prf >>= λ h0.
        sample_uniform_r_bits_with_fixed_prf_context l aes s_prf no_restriction >>= λ sig0.
        sample_uniform_r_bits_with_fixed_prf_context l aes sig0.1 no_restriction >>= λ sig1.
        sample_half h0.2 >>= λ h1. calc_pk seed1 h0.0 h1.0 >>= λ pk.
        ok (pk, secret_key (h0.0, h0.1) (h1.0, h1.1) sig0.0 sig1.0)

    -- The ciphertext and the shared secret, from the second seed.
    unfoldable pub crypto_kem_enc : List ℕ → Pair → Pair → Pair → List ℕ → Result (Pair × List ℕ)
    crypto_kem_enc local_e splitted_e ct pk seed1 =
        encrypt local_e splitted_e ct pk seed1 >>= λ c. ok (c.0, get_ss c.1.val0 c.1.val1 c.0)

    -- `(mask & ss_succ.raw[i]) | (~mask & ss_fail.raw[i])`
    unfoldable pub select_ss : ℕ → List ℕ → List ℕ → List ℕ
    select_ss m ss_succ ss_fail =
        fill ell_k_size 0
          (λ i r.
            bit_or (bit_and m (get_or ss_succ i 0)) (bit_and (complement 8 m) (get_or ss_fail i 0)))
          (replicate ell_k_size 0)

    -- `success_cond`: the result of `decode`, the weight of `e` and the comparison of `e` with `e2`.
    unfoldable pub success_cond : Bool → Pair → Pair → ℕ
    success_cond dec_ret e e2 =
        bit_and
          (bit_and (to_nat dec_ret) (
            secure_cmp32 (t1 l)
              ((r_bits_vector_weight l e.val0 + r_bits_vector_weight l e.val1) % 2 ^ 32)))
          (secure_cmp (pair_bytes e) (pair_bytes e2) (2 * r_size l))

    -- The shared secret of `crypto_kem_dec` from what `decode` and `reencrypt` give. `mask` keeps
    -- 8 bits of `~secure_l32_mask(0, success_cond)`.
    unfoldable pub decapsulated : Pair → SecretKey → Pair × Bool → Pair × Pair → List ℕ
    decapsulated ct sk dec re =
        let m = complement 32 (secure_l32_mask 0 (success_cond dec.1 dec.0 re.1)) % 2 ^ 8 in
        select_ss m (get_ss re.0.val0 re.0.val1 ct) (get_ss sk.sigma0 sk.sigma1 ct)

    -- What `crypto_kem_dec` does after `decode`, whose errors and result the pair holds.
    unfoldable pub decapsulate_with :
        List ℕ → Pair → Pair → Pair → SecretKey → Pair × Bool → Result (List ℕ)
    decapsulate_with local_e ce e2 ct sk dec =
        reencrypt local_e ce e2 dec.0 ct >>= λ re. ok (decapsulated ct sk dec re)

    unfoldable pub crypto_kem_dec :
        (ℕ → ℕ → ℕ) → List ℕ → Pair → Pair → Pair → SecretKey → Result (List ℕ)
    crypto_kem_dec over local_e ce e2 ct sk =
        decapsulate_with local_e ce e2 ct sk
          (decode l over ct sk (compute_syndrome l (replicate (3 * r_qw l) 0) ct sk))
