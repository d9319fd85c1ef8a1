-- ===== src/Decode/Solves.antt =====
-- `decode` against what it is meant to find: errors that make the syndrome of the ciphertext vanish.
use bike_modify.Base.{ℕ, zero, suc, ◌+◌, ◌*◌, ◌<◌, ◌≡◌, ◌↔◌, refl, sym, ap, ap₂, subst, ◌∙◌, arith}
use bike_modify.Base.{List, length, Bool, true, false, xor, ◌==◌, ==_iff}
use native.Mathlib.Nat.{mod-eq_of_lt}
use bike_modify.Word.{IsWords, bit_at}
use bike_modify.Bytes.{byte_bit}
use bike_modify.Params.{Level, r_bits, r_qw, r_size, max_it, layout}
use bike_modify.Utilities.{r_bits_vector_weight}
use bike_modify.Utilities.Weight.{ones, ones_cong, r_bits_vector_weight_lem}
use bike_modify.Poly.{cyclic_product}
use bike_modify.Poly.Cyclic.{cyclic_cong}
use bike_modify.Duplicate.{dup}
use bike_modify.Duplicate.Syndrome.{dup_lem}
use bike_modify.Gf2x.{gf2x_add}
use bike_modify.Gf2x.Add.{gf2x_add_lem}
use bike_modify.FindErr.{Pair}
use bike_modify.Decode.{
  SecretKey, Iteration, bytes_of, recompute_syndrome, syndrome_weight, is_decoded, decode,
  no_errors, flip_step, masked_step, iteration, iterations,
}
use bike_modify.Decode.Success.{max_it-suc}
use bike_modify.Decode.Polynomial.{zeros-IsPoly, gf2x_add-IsPoly, byte_bit-bytes_of}
use bike_modify.Decode.Syndrome.{ArePolys, syndrome_digit, compute_syndrome_lem}
use bike_modify.Decode.Vectors.{ones-zero, AreBytes, find_err1-ArePolys, find_err2-ArePolys}

-- Digit `p` of `(c0 + e0) * h0 + (c1 + e1) * h1` modulo `x^R_BITS - 1`.
unfoldable pub residue : Level → Pair → Pair → Pair → ℕ → Bool
residue l ct e h p =
    xor
      (cyclic_product (r_bits l) (λ i. xor (byte_bit ct.val0 i) (byte_bit e.val0 i))
        (byte_bit h.val0) p)
      (cyclic_product (r_bits l) (λ i. xor (byte_bit ct.val1 i) (byte_bit e.val1 i))
        (byte_bit h.val1) p)

-- No digit is left: the errors explain the whole syndrome.
unfoldable pub Solves : Level → Pair → Pair → Pair → Type 0
unfolding residue
Solves l ct h e = (p : ℕ) → p < r_bits l → residue l ct e h p ≡ false

module _ (l : Level) (over : ℕ → ℕ → ℕ) where
  module _ (ct : Pair) (sk : SecretKey) (sc : ArePolys l ct) (sh : ArePolys l sk.bin) where
    record IsSyndrome (s : List ℕ) : Type 0 where
      len : length s ≡ 3 * r_qw l
      words : IsWords 64 s

    -- The syndrome of the ciphertext with the errors added.
    recompute_syndrome_lem :
        (s : List ℕ) (e : Pair)
        → IsSyndrome s
        → ArePolys l e
        → IsSyndrome (recompute_syndrome l s ct sk e)
          × ((p : ℕ)
              → p < r_bits l
              → bit_at (recompute_syndrome l s ct sk e) p ≡ residue l ct e sk.bin p)
    unfolding recompute_syndrome residue syndrome_digit
    recompute_syndrome_lem s e ss se =
        let tmp_ct : Pair = record {
          val0 = gf2x_add ct.val0 ct.val0 e.val0 (r_size l);
          val1 = gf2x_add ct.val1 ct.val1 e.val1 (r_size l);
        } in
        let sum : ArePolys l tmp_ct = record {
          first = gf2x_add-IsPoly l ct.val0 ct.val0 e.val0 sc.first.size sc.first se.first;
          second = gf2x_add-IsPoly l ct.val1 ct.val1 e.val1 sc.second.size sc.second se.second;
        } in
        let new = compute_syndrome_lem l s tmp_ct sk ss.len ss.words sum sh in
        (
          record { len = new.0; words = new.1 },
          λ p h.
              new.2 p (omega (arith, layout l))
              ∙ ap (syndrome_digit l tmp_ct sk.bin) (mod-eq_of_lt {n = p} {m = r_bits l} h)
              ∙ ap₂ xor (added ct.val0 e.val0 sk.bin.val0 p sc.first.size h)
                  (added ct.val1 e.val1 sk.bin.val1 p sc.second.size h),
        )
      where
        added :
            (c x h : List ℕ) (p : ℕ)
            → length c ≡ r_size l
            → p < r_bits l
            → cyclic_product (r_bits l) (byte_bit (gf2x_add c c x (r_size l))) (byte_bit h) p
              ≡ cyclic_product (r_bits l) (λ i. xor (byte_bit c i) (byte_bit x i)) (byte_bit h) p
        added c x h p len k =
            cyclic_cong (r_bits l) _ _ _ _ p (omega arith)
              (λ i q.
                gf2x_add_lem c c x (r_size l) i (omega (arith, len)) (omega (arith, layout l)))
              (λ i q. refl)

    record IsSound (it : Iteration l) : Type 0 where
      errors : ArePolys l it.e
      black : AreBytes it.black_e
      gray : AreBytes it.gray_e
      syndrome : IsSyndrome it.s

    -- The syndrome belongs to the errors.
    record IsCurrent (it : Iteration l) : Type 0 where
      sound : IsSound it
      digits : (p : ℕ) → p < r_bits l → bit_at it.s p ≡ residue l ct it.e sk.bin p

    flip_step-IsCurrent : (it : Iteration l) → IsSound it → IsCurrent (flip_step l over ct sk it)
    unfolding flip_step
    flip_step-IsCurrent it i =
        let found =
          find_err1-ArePolys l over it.s it.e it.black_e it.gray_e sk.wlist _ i.errors i.black
            i.gray in
        let new = recompute_syndrome_lem it.s _ i.syndrome found.0 in
        record {
          sound = record { errors = found.0; black = found.1; gray = found.2; syndrome = new.0 };
          digits = new.1;
        }

    masked_step-IsCurrent :
        (pos_e : Pair) (it : Iteration l)
        → AreBytes pos_e
        → IsSound it
        → IsCurrent (masked_step l over ct sk pos_e it)
    unfolding masked_step
    masked_step-IsCurrent pos_e it sp i =
        let found = find_err2-ArePolys l over it.s it.e pos_e sk.wlist _ i.errors sp in
        let new = recompute_syndrome_lem it.s _ i.syndrome found in
        record {
          sound = record { errors = found; black = i.black; gray = i.gray; syndrome = new.0 };
          digits = new.1;
        }

    iteration-IsCurrent :
        (iter : ℕ) (it : Iteration l) → IsSound it → IsCurrent (iteration l over ct sk iter it)
    unfolding iteration
    iteration-IsCurrent zero it i =
        let one = (flip_step-IsCurrent it i).sound in
        let two = (masked_step-IsCurrent _ _ one.black one).sound in
        masked_step-IsCurrent _ _ two.gray two
    iteration-IsCurrent (suc iter) it i = flip_step-IsCurrent it i

    iterations-IsCurrent :
        (n iter : ℕ) (it : Iteration l)
        → IsSound it
        → IsCurrent (iterations l over ct sk (suc n) iter it)
    unfolding iterations
    iterations-IsCurrent zero iter it i = iteration-IsCurrent iter it i
    iterations-IsCurrent (suc n) iter it i =
        iterations-IsCurrent n (iter + 1) (iteration l over ct sk iter it)
          (iteration-IsCurrent iter it i).sound

    weight_lem :
        (it : Iteration l)
        → IsCurrent it
        → ((syndrome_weight l it.s == 0) ≡ true) ↔ Solves l ct sk.bin it.e
    unfolding syndrome_weight Solves
    weight_lem it c =
        let count : r_bits_vector_weight l (bytes_of it.s (r_size l))
            ≡ ones (λ p. residue l ct it.e sk.bin p) (r_bits l) =
          r_bits_vector_weight_lem l (bytes_of it.s (r_size l))
          ∙ ones_cong _ _ (r_bits l) (λ p h.
            byte_bit-bytes_of it.s (r_size l) p (omega (arith, layout l)) ∙ c.digits p h) in
        let zero_ones = ones-zero (λ p. residue l ct it.e sk.bin p) (r_bits l) in
        (
          (λ t. zero_ones.0 (sym count ∙ (==_iff _ 0).0 t)),
          (λ h. (==_iff _ 0).1 (count ∙ zero_ones.1 h)),
        )

    -- What `decode` starts with, and the variables after its last iteration.
    abbrev first_iteration : List ℕ → Iteration l
    first_iteration original_s = record {
      e = no_errors l;
      black_e = no_errors l;
      gray_e = no_errors l;
      s = dup l original_s;
    }

    last_iteration-IsCurrent :
        (original_s : List ℕ)
        → length original_s ≡ 3 * r_qw l
        → IsWords 64 original_s
        → IsCurrent (iterations l over ct sk (max_it l) 0 (first_iteration original_s))
    unfolding no_errors
    last_iteration-IsCurrent original_s len words =
        let twice = dup_lem l original_s len words in
        let zeros = zeros-IsPoly l in
        let i : IsSound (first_iteration original_s) = record {
          errors = record { first = zeros; second = zeros };
          black = record { first = zeros.bytes; second = zeros.bytes };
          gray = record { first = zeros.bytes; second = zeros.bytes };
          syndrome = record { len = twice.0; words = twice.1 };
        } in
        let (n, e) = max_it-suc l in
        subst (λ k. IsCurrent (iterations l over ct sk k 0 (first_iteration original_s))) (sym e)
          (iterations-IsCurrent n 0 (first_iteration original_s) i)

    -- `decode` reports success exactly if the errors that it returns, added to the ciphertext, make its
    -- syndrome vanish: no digit of `(c0 + e0) * h0 + (c1 + e1) * h1` modulo `x^R_BITS - 1` is set. The
    -- ciphertext and the key are polynomials, and the syndrome that is passed is an array of words.
    pub decode-Solves :
        (original_s : List ℕ)
        → length original_s ≡ 3 * r_qw l
        → IsWords 64 original_s
        → ((decode l over ct sk original_s).1 ≡ true)
          ↔ Solves l ct sk.bin (decode l over ct sk original_s).0
    unfolding decode is_decoded
    decode-Solves original_s len words =
        weight_lem _ (last_iteration-IsCurrent original_s len words)

    -- Whether it succeeds or not, `decode` returns errors that are two polynomials: arrays of `R_SIZE`
    -- bytes with no digit from `R_BITS` on. The ciphertext and the key are polynomials, and the syndrome
    -- that is passed is an array of words, whatever its digits and the index lists of the key are.
    pub decode-ArePolys :
        (original_s : List ℕ)
        → length original_s ≡ 3 * r_qw l
        → IsWords 64 original_s
        → ArePolys l (decode l over ct sk original_s).0
    unfolding decode
    decode-ArePolys original_s len words =
        (last_iteration-IsCurrent original_s len words).sound.errors
