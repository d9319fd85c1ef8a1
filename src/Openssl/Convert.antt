-- ===== src/Openssl/Convert.antt =====
-- `ossl_bin2bn` and `ossl_bn2bin`: the digits of a polynomial's bytes are those of the big number.
use bike_modify.Base.{ℕ, ◌-◌, ◌*◌, ◌/◌, ◌%◌, ◌^◌, ◌≤◌, ◌<◌, ◌≡◌, refl, sym, ap, ◌∙◌, arith}
use bike_modify.Base.{
  List, length, get_or, replicate, length-replicate, get_or-replicate, fill, length-fill,
  fill_inside, get_or_past,
}
use bike_modify.Base.{Bool, false, ltb, if◌then◌else◌, lt_or_le, lt→ltb, le→ltb, inl, inr}
use bike_modify.Bits.{bit, bit-lt-pow, bit-zero}
use bike_modify.Word.{IsWords, lt_of_bits}
use bike_modify.Bytes.{byte_bit}
use bike_modify.Params.{Level, level1, level3, level5, r_bits, r_size, n_size, layout}
use bike_modify.Decode.Polynomial.{IsPoly, poly_ext}
use bike_modify.Result.{◌>>=◌}
use bike_modify.Openssl.{Openssl, reverse_endian, ossl_bin2bn, ossl_bn2bin}
use bike_modify.Openssl.Numbers.{be_value, bit-be_value, be_value-lt, reverse_endian_lem}
use bike_modify.Openssl.Documented.{
  IsDocumented, Outcome, done, checked-Outcome, Outcome-then, Outcome-map,
}

r_size-le-n_size : (l : Level) → r_size l ≤ n_size l
unfolding r_size n_size
r_size-le-n_size level1 = omega arith
r_size-le-n_size level3 = omega arith
r_size-le-n_size level5 = omega arith

module _ (l : Level) (o : Openssl) (reliable : Bool) (s : IsDocumented o reliable) where
  -- The bytes reversed are bytes, and their value has the digits of the polynomial.
  reversed_bytes :
      (source : List ℕ)
      → IsPoly l source
      → let be_tmp = reverse_endian (replicate (n_size l) 0) source (r_size l) in
        (length be_tmp ≡ n_size l)
        × IsWords 8 be_tmp
        × ((p : ℕ) → bit (be_value be_tmp (r_size l)) p ≡ byte_bit source p)
  unfolding byte_bit
  reversed_bytes source poly =
      let be_tmp = reverse_endian zeros source (r_size l) in
      let words : IsWords 8 be_tmp = λ i. rw (read i) (small i) in
      (
        (reverse_endian_lem zeros source (r_size l) 0 room).0
            ∙ length-replicate {A = ℕ} (n_size l) 0,
        words,
        λ p. elim (lt_or_le p (8 * r_size l)) [
          | inl h ↦
              bit-be_value be_tmp (r_size l) p words h
              ∙ ap (λ t. bit t (p % 8))
                  (read (r_size l - 1 - p / 8)
                    ∙ ground (
                      arith,
                      ap (λ t. get_or source t 0) {x = r_size l - 1 - (r_size l - 1 - p / 8)}
                          {y = p / 8} (omega arith),
                    ))
          | inr g ↦
              bit-lt-pow (8 * r_size l) _ (be_value-lt be_tmp (r_size l) words) p g
              ∙ sym (poly.past p (omega (arith, layout l)))
        ],
      )
    where
      zeros : List ℕ
      zeros = replicate (n_size l) 0

      room : r_size l ≤ length zeros
      room = omega (arith, r_size-le-n_size l, length-replicate {A = ℕ} (n_size l) 0)

      read :
          (i : ℕ)
          → get_or (reverse_endian zeros source (r_size l)) i 0
            ≡ (if ltb i (r_size l) then get_or source (r_size l - 1 - i) 0 else 0)
      read i =
          (reverse_endian_lem zeros source (r_size l) i room).1
          ∙ ground (arith, get_or-replicate {A = ℕ} (n_size l) 0 i)

      small : (i : ℕ) → (if ltb i (r_size l) then get_or source (r_size l - 1 - i) 0 else 0) < 2 ^ 8
      small i = ground (arith, poly.bytes (r_size l - 1 - i))

  pub ossl_bin2bn_lem :
      (out : o.Bignum) (source : List ℕ)
      → IsPoly l source
      → Outcome reliable
          (λ x. (p : ℕ) → bit (s.value x) p ≡ byte_bit source p)
          (ossl_bin2bn l o out source (r_size l))
  unfolding ossl_bin2bn
  ossl_bin2bn_lem out source poly =
      let r = reversed_bytes source poly in
      Outcome-map
        (checked-Outcome
          (s.bin2bn_lem _ (r_size l) out r.1 (omega (arith, r.0, r_size-le-n_size l))))
        (λ x e p. ap (λ t. bit t p) e ∙ r.2 p)

  module _ (out : List ℕ) (x : o.Bignum) (size : length out ≡ r_size l)
      (past : (p : ℕ) → r_bits l ≤ p → bit (s.value x) p ≡ false) where
    n-le : o.num_bytes x ≤ r_size l
    n-le =
        s.num_bytes_least x (r_size l)
          (lt_of_bits (8 * r_size l) (s.value x) (λ i h. past i (omega (arith, layout l))))

    abbrev cleared : List ℕ
    cleared = fill (r_size l) 0 (λ j r. 0) out

    no_byte : (j : ℕ) → get_or cleared j 0 ≡ 0
    no_byte j = elim (lt_or_le j (r_size l)) [
      | inl h ↦
          fill_inside 0 (λ j r. 0) (λ k xs ys e. refl) (r_size l) 0 out j (omega arith)
            (omega arith) (omega (arith, size))
      | inr g ↦
          get_or_past cleared j 0
            (omega (arith, size, length-fill {A = ℕ} 0 (λ j r. 0) (r_size l) 0 out))
    ]

    room : o.num_bytes x ≤ length cleared
    room = omega (arith, n-le, size, length-fill {A = ℕ} 0 (λ j r. 0) (r_size l) 0 out)

    read :
        (bytes : List ℕ) (j : ℕ)
        → length bytes ≡ o.num_bytes x
        → let be_tmp = fill (length bytes) 0 (λ j r. get_or bytes j 0) (replicate (n_size l) 0) in
          get_or (reverse_endian cleared be_tmp (o.num_bytes x)) j 0
          ≡ (if ltb j (o.num_bytes x) then get_or bytes (o.num_bytes x - 1 - j) 0 else 0)
    read bytes j e =
        let be_tmp = fill (length bytes) 0 (λ j r. get_or bytes j 0) (replicate (n_size l) 0) in
        (reverse_endian_lem cleared be_tmp (o.num_bytes x) j room).1
        ∙ elim (lt_or_le j (o.num_bytes x)) [
          | inl h ↦ rw (lt→ltb j (o.num_bytes x) h) (
              fill_inside 0 (λ j r. get_or bytes j 0) (λ k xs ys e. refl) (length bytes) 0
                (replicate (n_size l) 0) (o.num_bytes x - 1 - j) (omega arith) (omega (arith, e))
                (omega (arith, length-replicate {A = ℕ} (n_size l) 0, n-le, r_size-le-n_size l)))
          | inr g ↦ rw (le→ltb j (o.num_bytes x) g) (no_byte j)
        ]

    -- The bytes of the number, reversed in the array that was cleared.
    written :
        (bytes : List ℕ)
        → length bytes ≡ o.num_bytes x
        → IsWords 8 bytes
        → be_value bytes (o.num_bytes x) ≡ s.value x
        → let be_tmp = fill (length bytes) 0 (λ j r. get_or bytes j 0) (replicate (n_size l) 0) in
          let r = reverse_endian cleared be_tmp (o.num_bytes x) in
          IsPoly l r × ((p : ℕ) → byte_bit r p ≡ bit (s.value x) p)
    unfolding byte_bit
    written bytes e words v =
        let be_tmp = fill (length bytes) 0 (λ j r. get_or bytes j 0) (replicate (n_size l) 0) in
        let r = reverse_endian cleared be_tmp (o.num_bytes x) in
        let digits : (p : ℕ) → byte_bit r p ≡ bit (s.value x) p = λ p.
          ap (λ t. bit t (p % 8)) (read bytes (p / 8) e) ∙ elim (lt_or_le (p / 8) (o.num_bytes x)) [
            | inl h ↦
                ap (λ t. bit t (p % 8)) (ground (arith))
                ∙ sym (bit-be_value bytes (o.num_bytes x) p words (omega arith))
                ∙ ap (λ t. bit t p) v
            | inr g ↦
                ap (λ t. bit t (p % 8)) {y = 0} (ground arith)
                ∙ bit-zero (p % 8)
                ∙ sym (
                    bit-lt-pow (8 * o.num_bytes x) (s.value x) (s.num_bytes_holds x) p
                      (omega arith))
          ] in
        (
          record {
            size =
                (reverse_endian_lem cleared be_tmp (o.num_bytes x) 0 (room)).0
                ∙ length-fill {A = ℕ} 0 (λ j r. 0) (r_size l) 0 out
                ∙ size;
            bytes = λ i. rw (read bytes i e) (ground (arith, words (o.num_bytes x - 1 - i)));
            past = λ p h. digits p ∙ past p h;
          },
          digits,
        )

  -- A number with no digit from `R_BITS` on is written as a polynomial.
  pub ossl_bn2bin_lem :
      (out : List ℕ) (x : o.Bignum)
      → length out ≡ r_size l
      → ((p : ℕ) → r_bits l ≤ p → bit (s.value x) p ≡ false)
      → Outcome reliable
          (λ r. IsPoly l r × ((p : ℕ) → byte_bit r p ≡ bit (s.value x) p))
          (ossl_bn2bin l o out x (r_size l))
  unfolding ossl_bn2bin
  ossl_bn2bin_lem out x size past =
      Outcome-then (checked-Outcome (s.bn2bin_lem x))
        (λ bytes h. done (written out x size past bytes h.0 h.1 h.2))

  -- A polynomial comes back from a big number as it was, whatever the array held that it is written
  -- to; the conversions fail only with the error of the library, and not at all if the library has the
  -- memory that it asks for.
  pub ossl_bn2bin-ossl_bin2bn :
      (x0 : o.Bignum) (source out : List ℕ)
      → IsPoly l source
      → length out ≡ r_size l
      → Outcome reliable
          (λ r. r ≡ source)
          (ossl_bin2bn l o x0 source (r_size l) >>= λ x. ossl_bn2bin l o out x (r_size l))
  ossl_bn2bin-ossl_bin2bn x0 source out poly size =
      Outcome-then (ossl_bin2bn_lem x0 source poly) (λ x h.
        Outcome-map (ossl_bn2bin_lem out x size (λ p k. h p ∙ poly.past p k))
          (λ r w. poly_ext l r source w.0 poly (λ p k. w.1 p ∙ h p)))
