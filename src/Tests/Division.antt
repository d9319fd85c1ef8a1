-- ===== src/Tests/Division.antt =====
-- Products without carries and their remainders, for a library of big numbers that are natural numbers.
use bike_modify.Base.{
  ℕ, zero, suc, ◌+◌, ◌-◌, ◌*◌, ◌^◌, ◌≤◌, ◌<◌, ◌≡◌, refl, sym, ap, ap₂, ◌∙◌, arith,
}
use bike_modify.Base.{lt_or_le, inl, inr}
use bike_modify.Base.{Bool, true, false, xor, ◌&&◌, ◌==◌, if◌then◌else◌, bit_xor}
use bike_modify.Bits.{bit, bit-zero, bit-xor, bit-mul-pow, bit-lt-pow}
use bike_modify.Poly.{shifted, product}
use bike_modify.Poly.Sum.{sum_cong, sum-at, xor_comm, xor-false}
use bike_modify.Poly.Product.{product_longer, product_cong, product-xor_left}
use bike_modify.Poly.Remainder.{coefficient, coefficient_lem}
use bike_modify.Openssl.Arithmetic.{below_pow, bit-pow}

-- The product without carries, of the first `n` digits of `a`.
unfoldable pub carryless : ℕ → ℕ → ℕ → ℕ
carryless zero a b = 0
carryless (suc n) a b = bit_xor (carryless n a b) (if bit a n then b * 2 ^ n else 0)

bit-carryless : (n a b p : ℕ) → bit (carryless n a b) p ≡ product n (bit a) (bit b) p
unfolding carryless product
bit-carryless zero a b p = bit-zero p
bit-carryless (suc n) a b p =
    bit-xor p (carryless n a b) (if bit a n then b * 2 ^ n else 0)
    ∙ ap₂ xor (bit-carryless n a b p) (ground (arith, bit-mul-pow n b p, bit-zero p))

bit-whole_product : (a b p : ℕ) → bit (carryless a a b) p ≡ coefficient (bit a) (bit b) p
bit-whole_product a b p =
    bit-carryless a a b p
    ∙ sym (product_longer a (suc p) (bit a) (bit b) p (λ i h. bit-lt-pow a a (below_pow a) i h))
    ∙ ap (λ n. product n (bit a) (bit b) p) {x = a + suc p} {y = suc p + a} (omega arith)
    ∙ coefficient_lem a (bit a) (bit b) p

-- The quotient and the remainder of `x` by `m` of degree `d`, with `n` digits of the quotient.
unfoldable pub divide : ℕ → ℕ → ℕ → ℕ → ℕ × ℕ
divide zero x m d = (0, x)
divide (suc n) x m d =
    let c = bit x (d + n) in
    let rest = divide n (bit_xor x (if c then m * 2 ^ n else 0)) m d in
    (bit_xor rest.0 (if c then 2 ^ n else 0), rest.1)

coefficient-term :
    (c : Bool) (n : ℕ) (g : ℕ → Bool) (p : ℕ)
    → coefficient (bit (if c then 2 ^ n else 0)) g p ≡ (c && shifted n g p)
unfolding product
coefficient-term true n g p =
    sum_cong (suc p) _ (λ i. shifted i g p && (i == n)) (λ i h. ground (arith, bit-pow n i))
    ∙ sum-at (suc p) n (λ i. shifted i g p)
    ∙ ground arith
coefficient-term false n g p =
    sum_cong (suc p) _ (λ i. shifted i g p && (i == suc p)) (λ i h. ground (arith, bit-zero i))
    ∙ sum-at (suc p) (suc p) (λ i. shifted i g p)
    ∙ ground arith

-- The rounds of a division by `m` of degree `d`.
divide_lem :
    (n x m d : ℕ)
    → bit m d ≡ true
    → ((p : ℕ) → d < p → bit m p ≡ false)
    → ((p : ℕ) → d + n ≤ p → bit x p ≡ false)
    → ((p : ℕ) → d ≤ p → bit (divide n x m d).1 p ≡ false)
      × ((p : ℕ)
          → bit x p
            ≡ xor (coefficient (bit (divide n x m d).0) (bit m) p) (bit (divide n x m d).1 p))
unfolding divide
divide_lem zero x m d lead above small = (
  λ p h. small p (omega arith),
  λ p. sym (
      ap (λ t. xor t (bit x p)) (coefficient-term false 0 (bit m) p)
      ∙ xor_comm false (bit x p)
      ∙ xor-false (bit x p)),
)
divide_lem (suc n) x m d lead above small =
    let c = bit x (d + n) in
    let x' = bit_xor x (if c then m * 2 ^ n else 0) in
    let step : (p : ℕ) → bit x' p ≡ xor (bit x p) (c && shifted n (bit m) p) = λ p.
      bit-xor p x (if c then m * 2 ^ n else 0)
      ∙ ap (xor (bit x p)) (ground (arith, bit-mul-pow n m p, bit-zero p)) in
    let ih = divide_lem n x' m d lead above (λ p h. step p ∙ cleared p h) in
    (
      ih.0,
      λ p. sym (
          ap (λ t. xor t (bit (divide n x' m d).1 p))
            (product_cong (suc p) _ _ (bit m) (bit m) p
                (λ i k. bit-xor i (divide n x' m d).0 (if c then 2 ^ n else 0)) (λ q. refl)
              ∙ product-xor_left (suc p) (bit (divide n x' m d).0) (bit (if c then 2 ^ n else 0))
                  (bit m) p
              ∙ ap (xor (coefficient (bit (divide n x' m d).0) (bit m) p))
                  (coefficient-term c n (bit m) p))
          ∙ regroup (coefficient (bit (divide n x' m d).0) (bit m) p) (c && shifted n (bit m) p)
              (bit (divide n x' m d).1 p)
          ∙ ap (λ t. xor t (c && shifted n (bit m) p)) (sym (ih.1 p) ∙ step p)
          ∙ twice (bit x p) (c && shifted n (bit m) p)),
    )
  where
    cleared : (p : ℕ) → d + n ≤ p → xor (bit x p) (bit x (d + n) && shifted n (bit m) p) ≡ false
    cleared p h =
        unfold xor in
        ground (
          arith,
          small p,
          above (p - n),
          lead,
          ap (bit m) {x = p - n} {y = d},
          ap (bit x) {x = p} {y = d + n},
        )

    regroup : (a b e : Bool) → xor (xor a b) e ≡ xor (xor a e) b
    regroup a b e = unfold xor in ground arith

    twice : (a b : Bool) → xor (xor a b) b ≡ a
    twice a b = unfold xor in ground arith

-- The greatest digit that is set, from `n` down.
unfoldable pub degree : ℕ → ℕ → ℕ
degree zero m = 0
degree (suc n) m = let rest = degree n m in if bit m (suc n) then suc n else rest

degree_lem :
    (n m d : ℕ) → d ≤ n → bit m d ≡ true → ((p : ℕ) → d < p → bit m p ≡ false) → degree n m ≡ d
unfolding degree
degree_lem zero m d h lead above = omega arith
degree_lem (suc n) m d h lead above = elim (lt_or_le n d) [
  | inl k ↦ ground (arith, lead, ap (bit m) {x = suc n} {y = d} (omega arith))
  | inr g ↦ ground (arith, above (suc n) (omega arith), degree_lem n m d g lead above)
]

-- The product modulo `m`.
pub product_lem :
    (a b m d : ℕ)
    → bit m d ≡ true
    → ((p : ℕ) → d < p → bit m p ≡ false)
    → let x = carryless a a b in
      let r = (divide x x m (degree m m)).1 in
      ((p : ℕ) → d ≤ p → bit r p ≡ false)
      × (q : ℕ) × ((p : ℕ)
          → coefficient (bit a) (bit b) p ≡ xor (coefficient (bit q) (bit m) p) (bit r p))
product_lem a b m d lead above =
    let x = carryless a a b in
    let e =
      degree_lem m m d
        (elim (lt_or_le m d) [
          | inl k ↦ absurd (clash (sym lead ∙ bit-lt-pow m m (below_pow m) d (omega arith)))
          | inr g ↦ g
        ])
        lead above in
    let divided =
      divide_lem x x m d lead above (λ p h. bit-lt-pow x x (below_pow x) p (omega arith)) in
    rw e (divided.0, (divide x x m d).0, λ p. sym (bit-whole_product a b p) ∙ divided.1 p)
  where
    clash : true ≡ false → ⊥
    clash h = cc
