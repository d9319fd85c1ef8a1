-- ===== src/Decode/Refines.antt =====
-- `decode` implements the reference decoder.
use bike_modify.Base.{
  ℕ, zero, suc, ◌+◌, ◌*◌, ◌%◌, ◌^◌, ◌≤◌, ◌<◌, ◌≡◌, refl, sym, ap, ap₂, subst, ◌/◌, ◌∙◌, arith,
}
use bike_modify.Base.{List, get_or-replicate, length, false, xor, ◌==◌, replicate}
use bike_modify.Word.{IsWords}
use bike_modify.Bits.{bit, bit-zero}
use bike_modify.Bytes.{byte_bit}
use bike_modify.Params.{Level, r_bits, r_qw, r_size, delta, max_it, layout}
use bike_modify.Poly.Cyclic.{cyclic_cong}
use bike_modify.Poly.Sum.{xor-false}
use bike_modify.FindErr.{Pair, find_err1, find_err2}
use bike_modify.FindErr.Counters.{top}
use bike_modify.Decode.{
  SecretKey, Iteration, compute_syndrome, get_threshold, masked_threshold, is_decoded, decode,
  no_errors, flip_step, masked_step, iteration, iterations,
}
use bike_modify.Decode.Polynomial.{zeros-IsPoly}
use bike_modify.Decode.Syndrome.{
  ArePolys, syndrome_digit, IsDoubled-digits, compute_syndrome-IsDoubled, IsDoubled-IsWords,
}
use bike_modify.Decode.Vectors.{AreBytes, find_err1-ArePolys, find_err2-ArePolys}
use bike_modify.Decode.Reference.{
  Digits, flip, both, without, remainder, black, gray, flip_round, masked_round, round, rounds,
  reference, is_solved,
}
use bike_modify.Decode.Steps.{
  HasDigits, HasSize, greatest_threshold, threshold-le, masked_threshold_lem, half_threshold-le,
  syndrome_weight_lem, get_threshold_lem,
}
use bike_modify.Decode.Shown.{
  digits_of, places_of, AreSparse, find_err1-HasSize, left, marks, Shows,
  recompute_syndrome-IsDoubled, find_err1_lem, find_err2_lem,
}

module _ (l : Level) (over : ℕ → ℕ → ℕ) (ct : Pair) (sk : SecretKey) (sc : ArePolys l ct)
    (sh : ArePolys l sk.bin) (sparse : AreSparse l over sk.wlist)
    (held : greatest_threshold l ≤ 2 ^ top l) where
  flip_step-Shows :
      (it : Iteration l) (f : Digits)
      → Shows l ct sk it f
      → let it' = flip_step l over ct sk it in
        let w = places_of sk.wlist in
        Shows l ct sk it' (flip_round l (digits_of ct) (digits_of sk.bin) w f)
        × HasDigits l it'.black_e (black l (digits_of ct) (digits_of sk.bin) w f)
        × HasDigits l it'.gray_e (gray l (digits_of ct) (digits_of sk.bin) w f)
  unfolding flip_step flip_round black gray
  flip_step-Shows it f i =
      let e = get_threshold_lem l it.s (left l ct sk f) i.doubled in
      let t = get_threshold l it.s in
      let low : t ≤ 2 ^ top l = omega (arith, e, threshold-le l (left l ct sk f), held) in
      let polys =
        find_err1-ArePolys l over it.s it.e it.black_e it.gray_e sk.wlist t i.errors i.black_bytes
          i.gray_bytes in
      let sizes =
        find_err1-HasSize l over it.s it.e it.black_e it.gray_e sk.wlist t i.black_size
          i.gray_size in
      let digits =
        subst
          (λ k.
            let r = find_err1 l over it.s it.e it.black_e it.gray_e sk.wlist t in
            HasDigits l r.0 (flip f (marks l ct sk f k 0))
            × HasDigits l r.1 (marks l ct sk f k 0)
            × HasDigits l r.2 (without (marks l ct sk f k 0) (marks l ct sk f k delta)))
          e (find_err1_lem l over ct sk sparse it f t i low) in
      let shape = IsDoubled-IsWords l (left l ct sk f) it.s i.doubled in
      (
        record {
          errors = polys.0;
          black_bytes = polys.1;
          gray_bytes = polys.2;
          black_size = sizes.0;
          gray_size = sizes.1;
          same = digits.0;
          doubled =
              recompute_syndrome-IsDoubled l ct sk sc sh it.s _ _ shape.0 shape.1 polys.0 digits.0;
        },
        digits.1,
        digits.2,
      )

  masked_step-Shows :
      (it : Iteration l) (f m : Digits) (pos_e : Pair)
      → Shows l ct sk it f
      → AreBytes pos_e
      → HasDigits l pos_e m
      → Shows l ct sk
          (masked_step l over ct sk pos_e it)
          (masked_round l (digits_of ct) (digits_of sk.bin) (places_of sk.wlist) m f)
  unfolding masked_step masked_round
  masked_step-Shows it f m pos_e i bytes mask =
      let t = masked_threshold l in
      let low : t ≤ 2 ^ top l = omega (arith, masked_threshold_lem l, half_threshold-le l) in
      let polys = find_err2-ArePolys l over it.s it.e pos_e sk.wlist t i.errors bytes in
      let digits =
        subst
          (λ k.
            HasDigits l (find_err2 l over it.s it.e pos_e sk.wlist t)
              (flip f (both m (marks l ct sk f k 0))))
          (masked_threshold_lem l) (find_err2_lem l over ct sk sparse it f m pos_e t i mask low) in
      let shape = IsDoubled-IsWords l (left l ct sk f) it.s i.doubled in
      record {
        errors = polys;
        black_bytes = i.black_bytes;
        gray_bytes = i.gray_bytes;
        black_size = i.black_size;
        gray_size = i.gray_size;
        same = digits;
        doubled = recompute_syndrome-IsDoubled l ct sk sc sh it.s _ _ shape.0 shape.1 polys digits;
      }

  iteration-Shows :
      (n : ℕ) (it : Iteration l) (f : Digits)
      → Shows l ct sk it f
      → Shows l ct sk
          (iteration l over ct sk n it)
          (round l (digits_of ct) (digits_of sk.bin) (places_of sk.wlist) n f)
  unfolding iteration round masked_step
  iteration-Shows zero it f i =
      let one = flip_step-Shows it f i in
      let two = masked_step-Shows _ _ _ _ one.0 one.0.black_bytes one.1 in
      masked_step-Shows _ _ _ _ two one.0.gray_bytes one.2
  iteration-Shows (suc n) it f i = (flip_step-Shows it f i).0

  iterations-Shows :
      (n iter : ℕ) (it : Iteration l) (f : Digits)
      → Shows l ct sk it f
      → Shows l ct sk
          (iterations l over ct sk n iter it)
          (rounds l (digits_of ct) (digits_of sk.bin) (places_of sk.wlist) n iter f)
  unfolding iterations rounds
  iterations-Shows zero iter it f i = i
  iterations-Shows (suc n) iter it f i =
      iterations-Shows n (iter + 1) _ _ (iteration-Shows iter it f i)

  pub decode-reference :
      (s : List ℕ)
      → length s ≡ 3 * r_qw l
      → IsWords 64 s
      → let found = decode l over ct sk (compute_syndrome l s ct sk) in
        let e = reference l (digits_of ct) (digits_of sk.bin) (places_of sk.wlist) in
        HasDigits l found.0 e × (found.1 ≡ is_solved l (digits_of ct) (digits_of sk.bin) e)
  unfolding decode reference is_solved is_decoded no_errors
  decode-reference s len words =
      let original =
        compute_syndrome-IsDoubled l (left l ct sk none_found) s ct sk len words sc sh start in
      let shape = IsDoubled-IsWords l (left l ct sk none_found) _ original in
      let zeros = zeros-IsPoly l in
      let empty : HasSize l (no_errors l) = record { size0 = zeros.size; size1 = zeros.size } in
      let small : AreBytes (no_errors l) = record { first = zeros.bytes; second = zeros.bytes } in
      let last = iterations-Shows (max_it l) 0 _ none_found record {
        errors = record { first = zeros; second = zeros };
        black_bytes = small;
        gray_bytes = small;
        black_size = empty;
        gray_size = empty;
        same = record { digits0 = λ p h. no_digit p; digits1 = λ p h. no_digit p };
        doubled = record {
          source = compute_syndrome l s ct sk;
          size = shape.0;
          words = shape.1;
          doubled = refl;
          digits = λ p h. IsDoubled-digits l (left l ct sk none_found) _ p original h;
        };
      } in
      (
        last.same,
        ap (λ t. t == 0)
            (syndrome_weight_lem l _ _ (λ p h. IsDoubled-digits l _ _ p last.doubled h)),
      )
    where
      none_found : Digits
      none_found = record { poly0 = λ p. false; poly1 = λ p. false }

      no_digit : (p : ℕ) → byte_bit (replicate (r_size l) 0) p ≡ false
      no_digit p =
          unfold byte_bit in
          (ap (λ t. bit t (p % 8)) (get_or-replicate {A = ℕ} (r_size l) 0 (p / 8))
            ∙ bit-zero (p % 8))

      start : (p : ℕ) → p < r_bits l → syndrome_digit l ct sk.bin p ≡ left l ct sk none_found p
      start p h =
          unfold syndrome_digit in
          unfold remainder in
          unfold digits_of in
          ap₂ xor
            (cyclic_cong (r_bits l) _ _ _ _ p (omega (arith, layout l)) (λ i q. sym (xor-false _))
              (λ i q. refl))
            (cyclic_cong (r_bits l) _ _ _ _ p (omega (arith, layout l)) (λ i q. sym (xor-false _))
              (λ i q. refl))
