-- ===== src/Openssl/Arithmetic.antt =====
-- `ossl_add` and `cyclic_product` against the arithmetic that the rest of the code uses.
use native.Mathlib.Nat.{pow-suc}
use bike_modify.Base.{ℕ, zero, suc, ◌-◌, ◌*◌, ◌^◌, ◌≤◌, ◌<◌, ◌≡◌, refl, sym, ap, ap₂, ◌∙◌, arith}
use bike_modify.Base.{
  List, length, Bool, true, false, xor, ◌||◌, ◌==◌, bit_or, bit_xor, lt_or_le, inl, inr,
}
use bike_modify.Bits.{bit, bit-zero, bit-or, bit-xor, bit-mul-pow, bit-lt-pow}
use bike_modify.Bytes.{byte_bit}
use bike_modify.Params.{Level, r_bits, r_size, layout}
use bike_modify.Poly
use bike_modify.Poly.Cyclic.{cyclic_cong}
use bike_modify.Poly.Remainder.{coefficient-two_terms, remainder_lem}
use bike_modify.Gf2x.{gf2x_add}
use bike_modify.Gf2x.Add.{gf2x_add_lem}
use bike_modify.Decode.{mod_mul}
use bike_modify.Decode.Polynomial.{IsPoly, poly_ext, gf2x_add-IsPoly, mod_mul-IsPoly, mod_mul_lem}
use bike_modify.Openssl.{
  Openssl, ossl_add, three_numbers, ossl_cyclic_product, cyclic_product, ossl_bn2bin,
}
use bike_modify.Openssl.Documented.{
  IsDocumented, Divides, Outcome, done, checked-Outcome, Outcome-then, Outcome-map,
}
use bike_modify.Openssl.Convert.{ossl_bin2bn_lem, ossl_bn2bin_lem}

pub below_pow : (n : ℕ) → n < 2 ^ n
below_pow zero = omega arith
below_pow (suc n) = omega (arith, pow-suc 2 n, below_pow n)

pub bit-pow : (n p : ℕ) → bit (2 ^ n) p ≡ (p == n)
bit-pow n p =
    ap (λ t. bit t p) {x = 2 ^ n} {y = 1 * 2 ^ n} (omega arith)
    ∙ bit-mul-pow n 1 p
    ∙ elim (lt_or_le p n) [ inl h ↦ ground arith | inr h ↦ ground (arith, one (p - n)) ]
  where
    one : (i : ℕ) → bit 1 i ≡ (i == 0)
    one zero = unfold bit in refl
    one (suc i) = unfold bit in rw (bit-zero i) (ground arith)

-- `m = x^R_BITS - 1`
bit-modulus :
    (l : Level) (p : ℕ)
    → bit (bit_or (bit_or 0 (2 ^ r_bits l)) (2 ^ 0)) p ≡ xor (p == 0) (p == r_bits l)
bit-modulus l p =
    bit-or p _ _
    ∙ ap₂ ◌||◌ (bit-or p 0 _ ∙ ap₂ ◌||◌ (bit-zero p) (bit-pow (r_bits l) p)) (bit-pow 0 p)
    ∙ unfold xor in ground (arith, layout l)

module _ (l : Level) (o : Openssl) (reliable : Bool) (s : IsDocumented o reliable) where
  three_numbers_lem : (c : o.Context) → Outcome reliable (λ n. Unit {0}) (three_numbers l o c)
  unfolding three_numbers
  three_numbers_lem c = Outcome-then (checked-Outcome (s.ctx_get_lem c)) (λ r _.
      Outcome-then (checked-Outcome (s.ctx_get_lem (o.ctx_get c).1)) (λ a _.
        Outcome-then (checked-Outcome (s.ctx_get_lem (o.ctx_get (o.ctx_get c).1).1))
          (λ b _. done tt)))

  -- The sum of two numbers, written as a polynomial.
  write_sum :
      (res a b : List ℕ) (x y z : o.Bignum)
      → length res ≡ r_size l
      → IsPoly l a
      → IsPoly l b
      → ((p : ℕ) → bit (s.value x) p ≡ byte_bit a p)
      → ((p : ℕ) → bit (s.value y) p ≡ byte_bit b p)
      → s.value z ≡ bit_xor (s.value x) (s.value y)
      → Outcome reliable
          (λ out. out ≡ gf2x_add res a b (r_size l))
          (ossl_bn2bin l o res z (r_size l))
  write_sum res a b x y z size sa sb da db e =
      Outcome-map
        (ossl_bn2bin_lem l o reliable s res z size
          (λ p h. digits p ∙ ap₂ xor (sa.past p h) (sb.past p h) ∙ unfold xor in refl))
        (λ out h. poly_ext l out _ h.0 (gf2x_add-IsPoly l res a b size sa sb) (λ p k.
          h.1 p
          ∙ digits p
          ∙ sym
              (gf2x_add_lem res a b (r_size l) p (omega (arith, size)) (omega (arith, layout l)))))
    where
      digits : (p : ℕ) → bit (s.value z) p ≡ xor (byte_bit a p) (byte_bit b p)
      digits p = ap (λ t. bit t p) e ∙ bit-xor p (s.value x) (s.value y) ∙ ap₂ xor (da p) (db p)

  -- `ossl_add` on polynomials returns the array that `gf2x_add` writes; it fails only with the error
  -- of the library, and not at all if the library has the memory that it asks for.
  pub ossl_add_lem :
      (res a b : List ℕ)
      → length res ≡ r_size l
      → IsPoly l a
      → IsPoly l b
      → Outcome reliable (λ out. out ≡ gf2x_add res a b (r_size l)) (ossl_add l o res a b)
  unfolding ossl_add
  ossl_add_lem res a b size sa sb = Outcome-then (checked-Outcome s.ctx_new_lem) (λ ctx _.
      Outcome-then (three_numbers_lem ctx) (λ n _.
        Outcome-then (ossl_bin2bn_lem l o reliable s n.1 a sa) (λ x da.
          Outcome-then (ossl_bin2bn_lem l o reliable s n.2 b sb) (λ y db.
            Outcome-then (checked-Outcome (s.gf2m_add_lem n.0 x y))
              (λ z e. write_sum res a b x y z size sa sb da db e)))))

  module _ (d : Divides o reliable s) where
    -- On numbers with no digit from `R_BITS` on.
    ossl_cyclic_product_lem :
        (r a b : o.Bignum) (c : o.Context)
        → ((p : ℕ) → r_bits l ≤ p → bit (s.value a) p ≡ false)
        → ((p : ℕ) → r_bits l ≤ p → bit (s.value b) p ≡ false)
        → Outcome reliable
            (λ x.
              ((p : ℕ) → r_bits l ≤ p → bit (s.value x) p ≡ false)
              × ((p : ℕ)
                  → p < r_bits l
                  → bit (s.value x) p
                    ≡ Poly.cyclic_product (r_bits l) (bit (s.value a)) (bit (s.value b)) p))
            (ossl_cyclic_product l o r a b c)
    unfolding ossl_cyclic_product
    ossl_cyclic_product_lem r a b c a_past b_past =
        Outcome-then (checked-Outcome (s.ctx_get_lem c)) (λ m0 e0.
          Outcome-then (checked-Outcome (s.set_bit_lem m0 (r_bits l))) (λ m1 e1.
            Outcome-then (checked-Outcome (s.set_bit_lem m1 0)) (λ m2 e2.
              let m : (p : ℕ) → bit (s.value m2) p ≡ xor (p == 0) (p == r_bits l) = λ p.
                ap (λ t. bit t p)
                  (e2 ∙ ap (λ t. bit_or t (2 ^ 0)) (e1 ∙ ap (λ t. bit_or t (2 ^ r_bits l)) e0))
                ∙ bit-modulus l p in
              Outcome-map
                (checked-Outcome (
                  d.gf2m_mod_mul_lem r a b m2 (o.ctx_get c).1 (r_bits l) (m (r_bits l) ∙ top_digit)
                    (λ p h. m p ∙ above p h)))
                (λ x h. (
                  h.0,
                  remainder_lem (r_bits l) h.1 (bit (s.value a)) (bit (s.value b)) (bit h.1)
                      (bit (s.value x)) (omega (arith, layout l)) a_past b_past h.0
                      (λ i k. bit-lt-pow h.1 h.1 (below_pow h.1) i k)
                      (λ p.
                        h.2 p
                        ∙ ap (λ t. xor t (bit (s.value x) p))
                            (coefficient-two_terms h.1 (r_bits l) (bit h.1) (bit (s.value m2)) p
                              (λ i k. bit-lt-pow h.1 h.1 (below_pow h.1) i k) m)),
                )))))
      where
        top_digit : xor (r_bits l == 0) (r_bits l == r_bits l) ≡ true
        top_digit = unfold xor in ground (arith, layout l)

        above : (p : ℕ) → r_bits l < p → xor (p == 0) (p == r_bits l) ≡ false
        above p h = unfold xor in ground arith

    -- `cyclic_product` on polynomials returns the product that `gf2x_mod_mul` computes; it fails only
    -- with the error of the library, and not at all if the library has the memory that it asks for.
    pub cyclic_product_lem :
        (res a b : List ℕ)
        → length res ≡ r_size l
        → IsPoly l a
        → IsPoly l b
        → Outcome reliable (λ out. out ≡ mod_mul l a b) (cyclic_product l o res a b)
    unfolding cyclic_product
    cyclic_product_lem res a b size sa sb = Outcome-then (checked-Outcome s.ctx_new_lem) (λ ctx _.
        Outcome-then (three_numbers_lem ctx) (λ n _.
          Outcome-then (ossl_bin2bn_lem l o reliable s n.1 a sa) (λ x da.
            Outcome-then (ossl_bin2bn_lem l o reliable s n.2 b sb) (λ y db.
              Outcome-then
                (ossl_cyclic_product_lem n.0 x y n.3 (λ p h. da p ∙ sa.past p h)
                  (λ p h. db p ∙ sb.past p h))
                (λ z h. Outcome-map (ossl_bn2bin_lem l o reliable s res z size h.0) (λ out w.
                  poly_ext l out _ w.0 (mod_mul-IsPoly l a b sa sb) (λ p k.
                    w.1 p
                    ∙ h.1 p k
                    ∙ cyclic_cong (r_bits l) _ _ _ _ p (omega arith) (λ i q. da i) (λ i q. db i)
                    ∙ sym (mod_mul_lem l a b p sa sb k))))))))
