-- ===== src/Poly/Karatzuba.antt =====
-- One step of the algorithm of Karatsuba: three products of half the size in place of four.
use bike_modify.Base.{ℕ, ◌+◌, ◌-◌, ◌*◌, ◌≤◌, ◌<◌, ◌≡◌, refl, ap, ap₂, ◌∙◌, arith}
use bike_modify.Base.{Bool, false, xor}
use bike_modify.Poly.{shifted, product}
use bike_modify.Poly.Product.{
  product_cong, product_split, product_past, product-shifted, product-xor_left, product-xor_right,
  shifted_cong,
}

-- `f` is `f0 + x^n * f1` and `g` is `g0 + x^n * g1`, with halves of `n` terms.
module _ (n : ℕ) (f f0 f1 g g0 g1 : ℕ → Bool) (f_low : (i : ℕ) → i < n → f i ≡ f0 i)
    (f_high : (i : ℕ) → i < n → f (n + i) ≡ f1 i)
    (g_halves : (q : ℕ) → g q ≡ xor (g0 q) (shifted n g1 q))
    (g0_past : (q : ℕ) → n ≤ q → g0 q ≡ false) (g1_past : (q : ℕ) → n ≤ q → g1 q ≡ false) where
  low : ℕ → Bool
  low = product n f0 g0

  high : ℕ → Bool
  high = product n f1 g1

  cross : ℕ → Bool
  cross = product n f0 g1

  cross' : ℕ → Bool
  cross' = product n f1 g0

  mid : ℕ → Bool
  mid = product n (λ i. xor (f0 i) (f1 i)) (λ q. xor (g0 q) (g1 q))

  half_by_whole :
      (h : ℕ → Bool) (p : ℕ)
      → product n h g p ≡ xor (product n h g0 p) (shifted n (product n h g1) p)
  half_by_whole h p =
      product_cong n h h g _ p (λ i l. refl) g_halves
      ∙ product-xor_right n h g0 (shifted n g1) p
      ∙ ap (xor (product n h g0 p)) (product-shifted n n h g1 p)

  whole :
      (p : ℕ)
      → product (n + n) f g p
        ≡ xor
            (xor (low p) (shifted n cross p))
            (shifted n (λ q. xor (cross' q) (shifted n high q)) p)
  unfolding low cross cross' high
  whole p =
      product_split n n f g p
      ∙ ap₂ xor (product_cong n f f0 g g p f_low (λ q. refl) ∙ half_by_whole f0 p) (
          shifted_cong n _ _ p
            (λ q. product_cong n _ f1 g g q f_high (λ t. refl) ∙ half_by_whole f1 q))

  middle : (p : ℕ) → mid p ≡ xor (xor (low p) (cross p)) (xor (cross' p) (high p))
  unfolding mid low cross cross' high
  middle p =
      product-xor_left n f0 f1 _ p
      ∙ ap₂ xor (product-xor_right n f0 g0 g1 p) (product-xor_right n f1 g0 g1 p)

  past :
      (h k : ℕ → Bool) (p : ℕ)
      → ((q : ℕ) → n ≤ q → k q ≡ false)
      → n + n ≤ p
      → product n h k p ≡ false
  past h k p e m = product_past n n h k p e (omega arith)

  -- The four blocks of `n` terms of the product, from the low, the middle and the high product.
  pub block0 : (p : ℕ) → p < n → product n f0 g0 p ≡ product (n + n) f g p
  unfolding low xor
  block0 p h = ground (arith, whole p)

  pub block1 :
      (p : ℕ)
      → p < n
      → xor
          (product n (λ i. xor (f0 i) (f1 i)) (λ q. xor (g0 q) (g1 q)) p)
          (xor (product n f0 g0 p) (xor (product n f0 g0 (n + p)) (product n f1 g1 p)))
        ≡ product (n + n) f g (n + p)
  unfolding mid low high xor
  block1 p h = ground (
    arith,
    whole (n + p),
    middle p,
    ap cross {x = n + p - n} {y = p} (omega arith),
    ap cross' {x = n + p - n} {y = p} (omega arith),
  )

  pub block2 :
      (p : ℕ)
      → p < n
      → xor
          (product n (λ i. xor (f0 i) (f1 i)) (λ q. xor (g0 q) (g1 q)) (n + p))
          (xor (product n f1 g1 (n + p)) (xor (product n f0 g0 (n + p)) (product n f1 g1 p)))
        ≡ product (n + n) f g (2 * n + p)
  unfolding mid low high xor
  block2 p h = ground (
    arith,
    whole (2 * n + p),
    middle (n + p),
    past f0 g0 (2 * n + p) g0_past (omega arith),
    ap cross {x = 2 * n + p - n} {y = n + p} (omega arith),
    ap cross' {x = 2 * n + p - n} {y = n + p} (omega arith),
    ap high {x = 2 * n + p - n - n} {y = p} (omega arith),
  )

  pub block3 : (p : ℕ) → p < n → product n f1 g1 (n + p) ≡ product (n + n) f g (3 * n + p)
  unfolding low high cross cross' xor
  block3 p h = ground (
    arith,
    whole (3 * n + p),
    past f0 g0 (3 * n + p) g0_past (omega arith),
    past f0 g1 (3 * n + p - n) g1_past (omega arith),
    past f1 g0 (3 * n + p - n) g0_past (omega arith),
    ap high {x = 3 * n + p - n - n} {y = n + p} (omega arith),
  )
