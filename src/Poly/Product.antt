-- ===== src/Poly/Product.antt =====
-- The schoolbook product: linear in both factors, and compatible with shifts.
use bike_modify.Base.{ℕ, ◌+◌, ◌-◌, ◌≤◌, ◌<◌, ◌≡◌, refl, ap, ap₂, ◌∙◌, arith}
use bike_modify.Base.{
  Bool, false, ◌&&◌, xor, ltb, ◌==◌, if◌then◌else◌, lt_or_le, inl, inr, lt→ltb, le→ltb,
}
use bike_modify.Poly.{xor_sum, shifted, product}
use bike_modify.Poly.Sum.{sum_cong, sum_false, sum_xor, sum_split, sum-at, and-xor, xor-and}

pub shifted_cong :
    (k : ℕ) (f g : ℕ → Bool) (p : ℕ) → ((q : ℕ) → f q ≡ g q) → shifted k f p ≡ shifted k g p
shifted_cong k f g p h = ap (λ t. if ltb p k then false else t) (h (p - k))

pub shifted-xor :
    (k : ℕ) (f g : ℕ → Bool) (p : ℕ)
    → shifted k (λ q. xor (f q) (g q)) p ≡ xor (shifted k f p) (shifted k g p)
unfolding xor
shifted-xor k f g p = ground arith

pub shifted-shifted :
    (i k : ℕ) (g : ℕ → Bool) (p : ℕ) → shifted i (shifted k g) p ≡ shifted (i + k) g p
shifted-shifted i k g p = ground (arith, ap g {x = p - i - k} {y = p - (i + k)} (omega arith))

pub product_cong :
    (n : ℕ) (f f' g g' : ℕ → Bool) (p : ℕ)
    → ((i : ℕ) → i < n → f i ≡ f' i)
    → ((q : ℕ) → g q ≡ g' q)
    → product n f g p ≡ product n f' g' p
unfolding product
product_cong n f f' g g' p h k = sum_cong n _ _ (λ i l. ap₂ ◌&&◌ (h i l) (shifted_cong i g g' p k))

pub product-xor_left :
    (n : ℕ) (f f' g : ℕ → Bool) (p : ℕ)
    → product n (λ i. xor (f i) (f' i)) g p ≡ xor (product n f g p) (product n f' g p)
unfolding product
product-xor_left n f f' g p =
    sum_cong n _ _ (λ i l. xor-and (f i) (f' i) (shifted i g p))
    ∙ sum_xor n (λ i. f i && shifted i g p) (λ i. f' i && shifted i g p)

pub product-xor_right :
    (n : ℕ) (f g g' : ℕ → Bool) (p : ℕ)
    → product n f (λ q. xor (g q) (g' q)) p ≡ xor (product n f g p) (product n f g' p)
unfolding product
product-xor_right n f g g' p =
    sum_cong n _ _ (λ i l.
      ap (λ t. f i && t) (shifted-xor i g g' p) ∙ and-xor (f i) (shifted i g p) (shifted i g' p))
    ∙ sum_xor n (λ i. f i && shifted i g p) (λ i. f i && shifted i g' p)

pub product-shifted :
    (n k : ℕ) (f g : ℕ → Bool) (p : ℕ) → product n f (shifted k g) p ≡ shifted k (product n f g) p
unfolding product
product-shifted n k f g p = elim (lt_or_le p k) [
  | inl l ↦ sum_false n _ (λ i h. ground (arith, shifted-shifted i k g p)) ∙ rw (lt→ltb p k l) refl
  | inr m ↦
      sum_cong n _ (λ i. f i && shifted i g (p - k))
        (λ i h.
          ap (λ t. f i && t)
            (shifted-shifted i k g p
              ∙ ground (arith, ap g {x = p - (i + k)} {y = p - k - i} (omega arith))))
      ∙ rw (le→ltb p k m) refl
]

-- The first `m` terms of the first factor, and the rest.
pub product_split :
    (m n : ℕ) (f g : ℕ → Bool) (p : ℕ)
    → product (m + n) f g p ≡ xor (product m f g p) (shifted m (product n (λ i. f (m + i)) g) p)
unfolding product
product_split m n f g p =
    sum_split m n (λ i. f i && shifted i g p)
    ∙ ap (xor (xor_sum m (λ i. f i && shifted i g p))) elim (lt_or_le p m) [
      | inl l ↦ sum_false n _ (λ i h. ground arith) ∙ rw (lt→ltb p m l) refl
      | inr k ↦
          sum_cong n _ (λ i. f (m + i) && shifted i g (p - m))
            (λ i h.
              ap (λ t. f (m + i) && t)
                (ground (arith, ap g {x = p - (m + i)} {y = p - m - i} (omega arith))))
          ∙ rw (le→ltb p m k) refl
    ]

-- Degrees add.
pub product_past :
    (n m : ℕ) (f g : ℕ → Bool) (p : ℕ)
    → ((q : ℕ) → m ≤ q → g q ≡ false)
    → n + m ≤ p + 1
    → product n f g p ≡ false
unfolding product
product_past n m f g p h k = sum_false n _ (λ i l. ground (arith, h (p - i) (omega arith)))

-- Terms that the first factor does not have add nothing.
pub product_longer :
    (m n : ℕ) (f g : ℕ → Bool) (p : ℕ)
    → ((i : ℕ) → m ≤ i → f i ≡ false)
    → product (m + n) f g p ≡ product m f g p
unfolding product
product_longer m n f g p h =
    sum_split m n (λ i. f i && shifted i g p)
    ∙ ap (xor (xor_sum m (λ i. f i && shifted i g p)))
        (sum_false n _ (λ i l. ap (λ t. t && shifted (m + i) g p) (h (m + i) (omega arith))))
    ∙ unfold xor in ground arith

-- One term as the second factor.
pub product_term :
    (n k : ℕ) (c : Bool) (f : ℕ → Bool) (p : ℕ)
    → ((i : ℕ) → n ≤ i → f i ≡ false)
    → product n f (λ q. c && (q == k)) p ≡ (c && shifted k f p)
unfolding product
product_term n k c f p h =
    sum_cong n _ (λ i. (c && shifted k f p) && (i == p - k))
      (λ i l. ground (arith, ap f {x = i} {y = p - k}))
    ∙ sum-at n (p - k) (λ i. c && shifted k f p)
    ∙ ground (arith, h (p - k))
