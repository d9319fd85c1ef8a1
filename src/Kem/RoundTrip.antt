-- ===== src/Kem/RoundTrip.antt =====
-- Encapsulation and decapsulation agree on the shared secret.
use bike_modify.Base.{ℕ, ◌+◌, ◌*◌, ◌%◌, ◌^◌, ◌≡◌, refl, sym, ap, ap₂, ◌∙◌, arith}
use bike_modify.Base.{List, length, true, ◌&&◌, ==_iff}
use bike_modify.Params.{Level, level1, level3, level5, r_size, t1, layout}
use bike_modify.Utilities.{r_bits_vector_weight}
use bike_modify.Utilities.Compare.{secure_cmp_lem}
use bike_modify.Result.{ok}
use bike_modify.Prf.{Aes}
use bike_modify.Sampling.{sample_uniform_r_bits, no_restriction}
use bike_modify.Gf2x.{gf2x_add}
use bike_modify.Gf2x.Add.{gf2x_add-gf2x_add}
use bike_modify.FindErr.{Pair}
use bike_modify.Decode.{SecretKey}
use bike_modify.Decode.Polynomial.{IsPoly, poly_ext, mod_mul-IsPoly, gf2x_add-IsPoly}
use bike_modify.Decode.Syndrome.{ArePolys}
use bike_modify.Kem.{
  pair_bytes, get_ss, function_h, multiply_pair, add_pair, encrypt, reencrypt, crypto_kem_enc,
  decapsulate_with,
}
use bike_modify.Kem.Hashed.{IsScratch, function_h_lem}
use bike_modify.Kem.Reject.{is_accepted, decapsulate_with_lem}
use bike_modify.Kem.Scratch.{function_h-scratch}

module _ (l : Level) (aes : Aes) where
  -- Adding the errors to the ciphertext gives the mask again.
  unmask :
      (old old' mf x : List ℕ)
      → length old ≡ r_size l
      → length old' ≡ r_size l
      → IsPoly l mf
      → IsPoly l x
      → gf2x_add old' (gf2x_add old mf x (r_size l)) x (r_size l) ≡ mf
  unmask old old' mf x size size' sm sx =
      let masked = gf2x_add-IsPoly l old mf x size sm sx in
      poly_ext l _ mf (gf2x_add-IsPoly l old' _ x size' masked sx) sm (λ p h.
        gf2x_add-gf2x_add old old' mf x (r_size l) p (omega (arith, size)) (omega (arith, size'))
          (omega (arith, layout l)))

  add_pair-add_pair :
      (old old' mf x : Pair)
      → length old.val0 ≡ r_size l
      → length old.val1 ≡ r_size l
      → length old'.val0 ≡ r_size l
      → length old'.val1 ≡ r_size l
      → ArePolys l mf
      → ArePolys l x
      → add_pair l aes old' (add_pair l aes old mf x) x ≡ mf
  unfolding add_pair
  add_pair-add_pair old old' mf x h0 h1 h0' h1' sm sx =
      ap₂ (λ a b. record { val0 = a; val1 = b })
        (unmask old.val0 old'.val0 mf.val0 x.val0 h0 h0' sm.first sx.first)
        (unmask old.val1 old'.val1 mf.val1 x.val1 h1 h1' sm.second sx.second)

  t1-mod : t1 l % 2 ^ 32 ≡ t1 l
  t1-mod = elim_level l
    where
      elim_level : (l : Level) → t1 l % 2 ^ 32 ≡ t1 l
      elim_level level1 = unfold t1 in refl
      elim_level level3 = unfold t1 in refl
      elim_level level5 = unfold t1 in refl

  accepted :
      (e : Pair)
      → r_bits_vector_weight l e.val0 + r_bits_vector_weight l e.val1 ≡ t1 l
      → is_accepted l true e e ≡ true
  accepted e weight =
      ap₂ (λ a b. (true && a) && b) ((==_iff _ _).1 (sym (ap (λ t. t % 2 ^ 32) weight ∙ t1-mod)))
        ((==_iff _ _).1
          ((secure_cmp_lem (pair_bytes l e) (pair_bytes l e) (2 * r_size l)).0.1 (λ i h. refl)))

  pub multiply_pair-ArePolys :
      (m : List ℕ) (pk : Pair) → IsPoly l m → ArePolys l pk → ArePolys l (multiply_pair l aes m pk)
  unfolding multiply_pair
  multiply_pair-ArePolys m pk sm spk = record {
    first = mod_mul-IsPoly l m pk.val0 sm spk.first;
    second = mod_mul-IsPoly l m pk.val1 sm spk.second;
  }

  -- The ciphertext and the shared secret of both sides.
  pub same_secret :
      (seed m local_e local_e' : List ℕ) (pk e sp sp' ct_before ce_before : Pair) (sk : SecretKey)
      → sample_uniform_r_bits l aes seed no_restriction ≡ ok m
      → IsPoly l m
      → ArePolys l pk
      → IsScratch l local_e
      → IsScratch l local_e'
      → length sp.val1 ≡ r_size l
      → length sp'.val1 ≡ r_size l
      → (length ct_before.val0 ≡ r_size l) × (length ct_before.val1 ≡ r_size l)
      → (length ce_before.val0 ≡ r_size l) × (length ce_before.val1 ≡ r_size l)
      → function_h l aes local_e sp (multiply_pair l aes m pk) ≡ ok e
      → let mf = multiply_pair l aes m pk in
        let ct = add_pair l aes ct_before mf e in
        let ss = get_ss l mf.val0 mf.val1 ct in
        (crypto_kem_enc l aes local_e sp ct_before pk seed ≡ ok (ct, ss))
        × (decapsulate_with l aes local_e' ce_before sp' ct sk (e, true) ≡ ok ss)
  unfolding crypto_kem_enc encrypt reencrypt
  same_secret seed m local_e local_e' pk e sp sp' ct0 ce0 sk sampled sm spk s s' z z' h h' hashed =
      let hash = function_h_lem l sp z aes local_e (multiply_pair l aes m pk) e s hashed in
      let mf = multiply_pair l aes m pk in
      let ct = add_pair l aes ct0 mf e in
      let same : add_pair l aes ce0 ct e ≡ mf =
        add_pair-add_pair ct0 ce0 mf e h.0 h.1 h'.0 h'.1 (multiply_pair-ArePolys m pk sm spk)
          hash.0 in
      let again : function_h l aes local_e' sp' (add_pair l aes ce0 ct e) ≡ ok e =
        ap (function_h l aes local_e' sp') same
        ∙ function_h-scratch l aes local_e' local_e sp' sp mf s' s z' z
        ∙ hashed in
      (
        rw (sampled, hashed) refl,
        decapsulate_with_lem l aes local_e' ce0 sp' ct sk (e, true)
            ∙ rw (again, same, accepted e hash.1) refl,
      )

  -- Encapsulation and decapsulation agree: if `crypto_kem_enc` samples the mask `m` and hashes to the
  -- errors `e`, it returns a ciphertext and a shared secret, and from a successful `decode`
  -- of that ciphertext that finds `e`, `crypto_kem_dec` gets the same shared secret. The mask and the
  -- public key are polynomials; what the arrays of either side hold before the calls does not matter,
  -- if they have the sizes of the source.
  pub round_trip :
      (seed m local_e local_e' : List ℕ) (pk e sp sp' ct_before ce_before : Pair) (sk : SecretKey)
      → sample_uniform_r_bits l aes seed no_restriction ≡ ok m
      → IsPoly l m
      → ArePolys l pk
      → IsScratch l local_e
      → IsScratch l local_e'
      → length sp.val1 ≡ r_size l
      → length sp'.val1 ≡ r_size l
      → (length ct_before.val0 ≡ r_size l) × (length ct_before.val1 ≡ r_size l)
      → (length ce_before.val0 ≡ r_size l) × (length ce_before.val1 ≡ r_size l)
      → function_h l aes local_e sp (multiply_pair l aes m pk) ≡ ok e
      → (ct : Pair) × (ss : List ℕ) × (crypto_kem_enc l aes local_e sp ct_before pk seed
          ≡ ok (ct, ss))
        × (decapsulate_with l aes local_e' ce_before sp' ct sk (e, true) ≡ ok ss)
  round_trip seed m local_e local_e' pk e sp sp' ct0 ce0 sk sampled sm spk s s' z z' h h' hashed =
      let both =
        same_secret seed m local_e local_e' pk e sp sp' ct0 ce0 sk sampled sm spk s s' z z' h h'
          hashed in
      (_, _, both.0, both.1)
