-- ===== src/Poly/Remainder.antt =====
-- The remainder of a product modulo `x^r - 1` is the cyclic product.
use bike_modify.Base.{ℕ, zero, suc, ◌+◌, ◌-◌, ◌≤◌, ◌<◌, ◌≡◌, refl, sym, ap, ap₂, ◌∙◌, arith}
use bike_modify.Base.{Bool, true, false, ◌&&◌, xor, ◌==◌}
use bike_modify.Poly.{xor_sum, shifted, product, cyclic_product}
use bike_modify.Poly.Sum.{sum_false, sum_split}
use bike_modify.Poly.Product.{
  product_longer, product_past, product_cong, product-xor_right, product_term,
}
use bike_modify.Poly.Cyclic.{cyclic_product_lem}

-- Coefficient `p` of the product of two power series.
abbrev pub coefficient : (ℕ → Bool) → (ℕ → Bool) → ℕ → Bool
coefficient f g p = product (suc p) f g p

-- Terms past `p` add nothing to coefficient `p`.
pub coefficient_lem :
    (k : ℕ) (f g : ℕ → Bool) (p : ℕ) → product (suc p + k) f g p ≡ coefficient f g p
unfolding product
coefficient_lem k f g p =
    sum_split (suc p) k (λ i. f i && shifted i g p)
    ∙ ap (xor (xor_sum (suc p) (λ i. f i && shifted i g p))) (sum_false k _ (λ i l. ground arith))
    ∙ unfold xor in ground arith

-- A polynomial of `n` terms times `x^r + 1`.
pub coefficient-two_terms :
    (n r : ℕ) (f g : ℕ → Bool) (p : ℕ)
    → ((i : ℕ) → n ≤ i → f i ≡ false)
    → ((i : ℕ) → g i ≡ xor (i == 0) (i == r))
    → coefficient f g p ≡ xor (f p) (shifted r f p)
coefficient-two_terms n r f g p past two =
    sym (coefficient_lem n f g p)
    ∙ product_cong (suc p + n) f f g (λ i. xor (i == 0) (i == r)) p (λ i l. refl) two
    ∙ product-xor_right (suc p + n) f (λ i. i == 0) (λ i. i == r) p
    ∙ ap₂ xor (product_term (suc p + n) 0 true f p (λ i l. past i (omega arith)) ∙ ground arith)
        (product_term (suc p + n) r true f p (λ i l. past i (omega arith)))

-- A product of polynomials of `r` terms, divided with a quotient of finitely many terms and a
-- remainder of `r` terms.
module _ (r last : ℕ) (f g q rest : ℕ → Bool) (pos : 0 < r) (f_past : (i : ℕ) → r ≤ i → f i ≡ false)
    (g_past : (i : ℕ) → r ≤ i → g i ≡ false) (rest_past : (i : ℕ) → r ≤ i → rest i ≡ false)
    (q_last : (i : ℕ) → last ≤ i → q i ≡ false)
    (divided : (p : ℕ) → coefficient f g p ≡ xor (xor (q p) (shifted r q p)) (rest p)) where
  coefficient_past : (p : ℕ) → r + r ≤ p + 1 → coefficient f g p ≡ false
  coefficient_past p h =
      sym (coefficient_lem r f g p)
      ∙ ap (λ n. product n f g p) {x = suc p + r} {y = r + suc p} (omega arith)
      ∙ product_longer r (suc p) f g p f_past
      ∙ product_past r r f g p g_past h

  quotient_past : (k p : ℕ) → last ≤ p + k → r ≤ p → q p ≡ false
  unfolding xor
  quotient_past zero p h l = q_last p (omega arith)
  quotient_past (suc k) p h l = ground (
    arith,
    divided (p + r),
    coefficient_past (p + r) (omega arith),
    rest_past (p + r) (omega arith),
    quotient_past k (p + r) (omega arith) (omega arith),
    ap q {x = p + r - r} {y = p} (omega arith),
  )

  pub remainder_lem : (p : ℕ) → p < r → rest p ≡ cyclic_product r f g p
  remainder_lem p h =
      digits
      ∙ ap₂ xor (long p (omega arith)) (long (p + r) (omega arith))
      ∙ cyclic_product_lem r (suc (p + r)) f g p h f_past g_past
    where
      long : (i : ℕ) → i ≤ p + r → coefficient f g i ≡ product (r + suc (p + r)) f g i
      long i l =
          sym (coefficient_lem (r + suc (p + r) - suc i) f g i)
          ∙ ap (λ n. product n f g i) {x = suc i + (r + suc (p + r) - suc i)} {y = r + suc (p + r)}
              (omega arith)

      digits : rest p ≡ xor (coefficient f g p) (coefficient f g (p + r))
      digits =
          unfold xor in
          ground (
            arith,
            divided p,
            divided (p + r),
            rest_past (p + r) (omega arith),
            quotient_past last (p + r) (omega arith) (omega arith),
            ap q {x = p + r - r} {y = p} (omega arith),
          )
