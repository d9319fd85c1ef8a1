-- ===== src/Kem/Honest.antt =====
-- Keys, ciphertexts and syndromes fit together.
use bike_modify.Base.{ℕ, ◌<◌, ◌≡◌, refl, sym, ap, ap₂, ◌∙◌, arith, List, length, xor, Bool, false}
use bike_modify.Word.{bit_at}
use bike_modify.Bytes.{byte_bit, memcpy}
use bike_modify.Params.{Level, r_bits, r_size, layout}
use bike_modify.Poly.{cyclic_product}
use bike_modify.Poly.Sum.{xor_swap}
use bike_modify.Poly.Cyclic.{cyclic_cong, cyclic_xor_left, keys_cancel}
use bike_modify.Prf.{Aes}
use bike_modify.Duplicate.{dup}
use bike_modify.Gf2x.{gf2x_add, gf2x_mod_mul}
use bike_modify.Gf2x.Add.{gf2x_add_lem}
use bike_modify.Gf2x.Cyclic.{IsPadded}
use bike_modify.FindErr.{Pair}
use bike_modify.Decode.{bytes_of, pad, mod_mul, compute_syndrome}
use bike_modify.Decode.Polynomial.{
  IsPoly, byte_bit-bytes_of, bytes_of-IsPoly, mod_mul-IsPoly, mod_mul_lem, product-IsPoly,
  product_digits, gf2x_add-IsPoly, poly_ext, pad-IsPadded, bit_at-pad,
}
use bike_modify.Decode.Syndrome.{
  ArePolys, syndrome_digit, syndrome_poly, syndrome_poly-IsPoly, syndrome_poly_lem,
}
use bike_modify.Kem.{public_key, multiply_pair, add_pair}

-- The secret polynomials `h0` and `h1` in the arrays of `pad_sk_t`, and the odd polynomial `g`.
module _ (l : Level) (aes : Aes) (p_sk0 p_sk1 g m : List ℕ) (s0 : IsPadded l p_sk0)
    (s1 : IsPadded l p_sk1) (sg : IsPoly l g) (sm : IsPoly l m) where
  pk : Pair
  pk = public_key l aes p_sk0 p_sk1 g

  bin : Pair
  bin = record { val0 = bytes_of p_sk0 (r_size l); val1 = bytes_of p_sk1 (r_size l) }

  pk-ArePolys : ArePolys l pk
  unfolding pk public_key
  pk-ArePolys = record {
    first = product-IsPoly l _ p_sk1 (pad-IsPadded l g sg) s1;
    second = product-IsPoly l _ p_sk0 (pad-IsPadded l g sg) s0;
  }

  bin-ArePolys : ArePolys l bin
  unfolding bin
  bin-ArePolys = record {
    first = bytes_of-IsPoly l p_sk0 (λ p h k. s0.past p h);
    second = bytes_of-IsPoly l p_sk1 (λ p h k. s1.past p h);
  }

  bin_digit :
      (p_sk : List ℕ) (i : ℕ) → i < r_bits l → byte_bit (bytes_of p_sk (r_size l)) i ≡ bit_at p_sk i
  bin_digit p_sk i h = byte_bit-bytes_of p_sk (r_size l) i (omega (arith, layout l))

  -- A digit of `m * f0` or of `m * f1`.
  masked_digit :
      (p_sk : List ℕ) (i : ℕ)
      → IsPadded l p_sk
      → i < r_bits l
      → byte_bit (mod_mul l m (bytes_of (gf2x_mod_mul l (pad l g) p_sk) (r_size l))) i
        ≡ cyclic_product
            (r_bits l)
            (byte_bit m)
            (cyclic_product (r_bits l) (byte_bit g) (bit_at p_sk))
            i
  masked_digit p_sk i sp h =
      mod_mul_lem l m _ i sm (product-IsPoly l _ p_sk (pad-IsPadded l g sg) sp) h
      ∙ cyclic_cong (r_bits l) _ _ _ _ i (omega arith) (λ j k. refl)
          (λ j k.
            product_digits l (pad l g) p_sk j (pad-IsPadded l g sg) sp k
            ∙ cyclic_cong (r_bits l) _ _ _ _ j (omega arith) (λ t q. bit_at-pad l g t sg)
                (λ t q. refl))

  -- The product with the other secret polynomial.
  masked_syndrome :
      (p_sk p_sk' : List ℕ) (p : ℕ)
      → IsPadded l p_sk
      → p < r_bits l
      → cyclic_product
          (r_bits l)
          (byte_bit (mod_mul l m (bytes_of (gf2x_mod_mul l (pad l g) p_sk) (r_size l))))
          (byte_bit (bytes_of p_sk' (r_size l)))
          p
        ≡ cyclic_product
            (r_bits l)
            (cyclic_product
              (r_bits l)
              (byte_bit m)
              (cyclic_product (r_bits l) (byte_bit g) (bit_at p_sk)))
            (bit_at p_sk')
            p
  masked_syndrome p_sk p_sk' p sp h =
      cyclic_cong (r_bits l) _ _ _ _ p (omega arith) (λ i k. masked_digit p_sk i sp k)
        (λ i k. bin_digit p_sk' i k)

  module _ (ct e : Pair) (c0 : length ct.val0 ≡ r_size l) (c1 : length ct.val1 ≡ r_size l)
      (se : ArePolys l e) where
    sent : Pair
    sent = add_pair l aes ct (multiply_pair l aes m pk) e

    sent-ArePolys : ArePolys l sent
    unfolding sent add_pair multiply_pair
    sent-ArePolys =
        let k = pk-ArePolys in
        record {
          first = gf2x_add-IsPoly l _ _ _ c0 (mod_mul-IsPoly l m pk.val0 sm k.first) se.first;
          second = gf2x_add-IsPoly l _ _ _ c1 (mod_mul-IsPoly l m pk.val1 sm k.second) se.second;
        }

    -- One of the two products of a syndrome: the mask and the error apart.
    apart :
        (old mf x : List ℕ) (h : ℕ → Bool) (p : ℕ)
        → length old ≡ r_size l
        → p < r_bits l
        → cyclic_product (r_bits l) (byte_bit (gf2x_add old mf x (r_size l))) h p
          ≡ xor
              (cyclic_product (r_bits l) (byte_bit mf) h p)
              (cyclic_product (r_bits l) (byte_bit x) h p)
    apart old mf x h p len k =
        cyclic_cong (r_bits l) _ _ _ _ p (omega arith)
          (λ i q. gf2x_add_lem old mf x (r_size l) i (omega (arith, len)) (omega (arith, layout l)))
          (λ i q. refl)
        ∙ cyclic_xor_left (r_bits l) (byte_bit mf) (byte_bit x) h p

    sent_digit : (p : ℕ) → p < r_bits l → syndrome_digit l sent bin p ≡ syndrome_digit l e bin p
    unfolding syndrome_digit sent add_pair multiply_pair pk public_key bin
    sent_digit p h =
        ap₂ xor (apart ct.val0 _ e.val0 _ p c0 h) (apart ct.val1 _ e.val1 _ p c1 h)
        ∙ xor_swap _ _ _ _
        ∙ ap₂ xor
            (ap₂ xor
                (masked_syndrome p_sk1 p_sk0 p s1 h
                  ∙ keys_cancel (r_bits l) (byte_bit m) (byte_bit g) (bit_at p_sk0) (bit_at p_sk1) p
                      h)
                (masked_syndrome p_sk0 p_sk1 p s0 h)
              ∙ xor_self _)
            refl
        ∙ false_xor _
      where
        xor_self : (a : Bool) → xor a a ≡ false
        xor_self a = unfold xor in ground arith

        false_xor : (a : Bool) → xor false a ≡ a
        false_xor a = unfold xor in ground arith

    -- The syndrome of a ciphertext depends on its error vector alone: for the keys that `calc_pk` makes
    -- of `h0`, `h1` and `g`, and a ciphertext that `encrypt` makes of a mask `m` and an error vector, all
    -- of them polynomials, `compute_syndrome` gives for the ciphertext what it gives for the error vector.
    pub honest_syndrome :
        (wlist : Pair) (sigma0 sigma1 syndrome : List ℕ)
        → compute_syndrome l syndrome
            (add_pair l aes ct (multiply_pair l aes m (public_key l aes p_sk0 p_sk1 g)) e)
            (record {
              bin = record { val0 = bytes_of p_sk0 (r_size l); val1 = bytes_of p_sk1 (r_size l) };
              wlist = wlist;
              sigma0 = sigma0;
              sigma1 = sigma1;
            })
          ≡ compute_syndrome l syndrome e (record {
            bin = record { val0 = bytes_of p_sk0 (r_size l); val1 = bytes_of p_sk1 (r_size l) };
            wlist = wlist;
            sigma0 = sigma0;
            sigma1 = sigma1;
          })
    unfolding compute_syndrome syndrome_poly sent pk bin
    honest_syndrome wlist sigma0 sigma1 syndrome =
        let same : syndrome_poly l sent bin ≡ syndrome_poly l e bin =
          poly_ext l _ _ (syndrome_poly-IsPoly l sent bin sent-ArePolys bin-ArePolys)
            (syndrome_poly-IsPoly l e bin se bin-ArePolys)
            (λ p h.
              syndrome_poly_lem l sent bin sent-ArePolys bin-ArePolys p h
              ∙ sent_digit p h
              ∙ sym (syndrome_poly_lem l e bin se bin-ArePolys p h)) in
        ap (λ t. dup l (memcpy syndrome t (r_size l))) same
