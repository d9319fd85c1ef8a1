-- ===== src/Kem/Agreement.antt =====
-- The shared secret of `crypto_kem_dec` where the reference decoder finds the errors.
use bike_modify.Base.{ℕ, ◌*◌, ◌^◌, ◌≤◌, ◌≡◌, sym, ap₂, ◌∙◌, arith}
use bike_modify.Base.{List, length, true, replicate, length-replicate, get_or-replicate}
use bike_modify.Word.{IsWords}
use bike_modify.Params.{Level, r_qw, r_size}
use bike_modify.Result.{ok}
use bike_modify.Prf.{Aes}
use bike_modify.Sampling.{sample_uniform_r_bits, no_restriction}
use bike_modify.FindErr.{Pair}
use bike_modify.FindErr.Counters.{top}
use bike_modify.Decode.{SecretKey, decode, compute_syndrome}
use bike_modify.Decode.Polynomial.{IsPoly, poly_ext, gf2x_add-IsPoly}
use bike_modify.Decode.Syndrome.{ArePolys, compute_syndrome_lem}
use bike_modify.Decode.Solves.{decode-ArePolys}
use bike_modify.Decode.Reference.{Digits, reference, is_solved}
use bike_modify.Decode.Steps.{HasDigits, greatest_threshold}
use bike_modify.Decode.Shown.{digits_of, places_of, AreSparse}
use bike_modify.Decode.Refines.{decode-reference}
use bike_modify.Kem.{function_h, multiply_pair, add_pair, crypto_kem_enc, crypto_kem_dec}
use bike_modify.Kem.Hashed.{IsScratch, function_h_lem}
use bike_modify.Kem.RoundTrip.{multiply_pair-ArePolys, same_secret}

-- Polynomials with the same digits.
pair_ext :
    (l : Level) (x y : Pair) (f : Digits)
    → ArePolys l x
    → ArePolys l y
    → HasDigits l x f
    → HasDigits l y f
    → x ≡ y
pair_ext l x y f sx sy dx dy =
    ap₂ (λ a b. record { val0 = a; val1 = b })
      (poly_ext l x.val0 y.val0 sx.first sy.first (λ p h. dx.digits0 p h ∙ sym (dy.digits0 p h)))
      (poly_ext l x.val1 y.val1 sx.second sy.second (λ p h. dx.digits1 p h ∙ sym (dy.digits1 p h)))

module _ (l : Level) (aes : Aes) (over : ℕ → ℕ → ℕ) (sk : SecretKey) (sh : ArePolys l sk.bin)
    (sparse : AreSparse l over sk.wlist) (held : greatest_threshold l ≤ 2 ^ top l) where
  -- `decode` finds what the reference decoder finds.
  decoded :
      (ct e : Pair)
      → ArePolys l ct
      → ArePolys l e
      → let found = reference l (digits_of ct) (digits_of sk.bin) (places_of sk.wlist) in
        HasDigits l e found
        → is_solved l (digits_of ct) (digits_of sk.bin) found ≡ true
        → decode l over ct sk (compute_syndrome l (replicate (3 * r_qw l) 0) ct sk) ≡ (e, true)
  decoded ct e sc se digits solved =
      let zeros : List ℕ = replicate (3 * r_qw l) 0 in
      let size = length-replicate {A = ℕ} (3 * r_qw l) 0 in
      let words : IsWords 64 zeros =
        λ i. rw (get_or-replicate {A = ℕ} (3 * r_qw l) 0 i) (omega arith) in
      let refined = decode-reference l over ct sk sc sh sparse held zeros size words in
      let start = compute_syndrome_lem l zeros ct sk size words sc sh in
      let polys = decode-ArePolys l over ct sk sc sh _ start.0 start.1 in
      ap₂ (λ a b. (a, b)) (pair_ext l _ e _ polys se refined.0 digits) (refined.1 ∙ solved)

  -- Both sides have the same shared secret if the reference decoder finds the errors: for a mask `m`
  -- that `crypto_kem_enc` samples and errors `e` that it hashes to, let the ciphertext be that of `m`
  -- and `e`. If the reference decoder finds `e` in it and is left with no syndrome, `crypto_kem_enc`
  -- returns this ciphertext and a shared secret, and `crypto_kem_dec` returns the same one. The mask,
  -- the public and the secret key are polynomials, the arrays have the sizes of the source, and the
  -- key's index lists and the thresholds are such that `decode` implements the reference decoder.
  pub agreement :
      (seed m local_e local_e' : List ℕ) (pk e sp sp' ct_before ce_before : Pair)
      → sample_uniform_r_bits l aes seed no_restriction ≡ ok m
      → IsPoly l m
      → ArePolys l pk
      → IsScratch l local_e
      → IsScratch l local_e'
      → length sp.val1 ≡ r_size l
      → length sp'.val1 ≡ r_size l
      → (length ct_before.val0 ≡ r_size l) × (length ct_before.val1 ≡ r_size l)
      → (length ce_before.val0 ≡ r_size l) × (length ce_before.val1 ≡ r_size l)
      → function_h l aes local_e sp (multiply_pair l aes m pk) ≡ ok e
      → let ct = add_pair l aes ct_before (multiply_pair l aes m pk) e in
        let found = reference l (digits_of ct) (digits_of sk.bin) (places_of sk.wlist) in
        HasDigits l e found
        → is_solved l (digits_of ct) (digits_of sk.bin) found ≡ true
        → (ss : List ℕ) × (crypto_kem_enc l aes local_e sp ct_before pk seed ≡ ok (ct, ss))
          × (crypto_kem_dec l aes over local_e' ce_before sp' ct sk ≡ ok ss)
  unfolding crypto_kem_dec
  agreement seed m local_e local_e' pk e sp sp' ct0 ce0 sampled sm spk s s' z z' h h' hashed digits
        solved =
      let both =
        same_secret l aes seed m local_e local_e' pk e sp sp' ct0 ce0 sk sampled sm spk s s' z z' h
          h' hashed in
      let mf = multiply_pair-ArePolys l aes m pk sm spk in
      let se = (function_h_lem l sp z aes local_e (multiply_pair l aes m pk) e s hashed).0 in
      let sc : ArePolys l (add_pair l aes ct0 (multiply_pair l aes m pk) e) =
        unfold add_pair in
        record {
          first = gf2x_add-IsPoly l ct0.val0 _ e.val0 h.0 mf.first se.first;
          second = gf2x_add-IsPoly l ct0.val1 _ e.val1 h.1 mf.second se.second;
        } in
      (_, both.0, rw (decoded _ e sc se digits solved) both.1)
