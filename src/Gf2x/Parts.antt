-- ===== src/Gf2x/Parts.antt =====
-- The halves of the arrays that `karatzuba` multiplies.
use bike_modify.Base.{
  ℕ, ◌+◌, ◌-◌, ◌*◌, ◌/◌, ◌%◌, ◌≤◌, ◌<◌, ◌≡◌, refl, sym, ap, ap₂, subst, ◌∙◌, arith,
}
use bike_modify.Base.{
  List, length, get_or, take, drop, get_or-take, get_or-drop, length-take, length-drop, get_or_past,
  bit_xor,
}
use bike_modify.Base.{false, xor, lt_or_le, inl, inr, lt→ltb, le→ltb}
use bike_modify.Bits.{bit, bit-xor, bit-zero, bit_cong}
use bike_modify.Word.{IsWords, bit_at, bit_at_cong, bit_xor-lt}
use bike_modify.Poly.{shifted}
use bike_modify.Poly.Sum.{xor-false, xor_comm}

-- Four blocks of `m`, and what follows them.
pub by_blocks {κ} :
    {P : ℕ → Type κ} (m : ℕ)
    → ((i : ℕ) → i < m → P i)
    → ((i : ℕ) → i < m → P (m + i))
    → ((i : ℕ) → i < m → P (2 * m + i))
    → ((i : ℕ) → i < m → P (3 * m + i))
    → ((i : ℕ) → 4 * m ≤ i → P i)
    → (i : ℕ) → P i
by_blocks {P = P} m b0 b1 b2 b3 rest i = elim (lt_or_le i m) [
  | inl h0 ↦ b0 i h0
  | inr g0 ↦ elim (lt_or_le i (2 * m)) [
    | inl h1 ↦ subst P (omega arith) (b1 (i - m) (omega arith))
    | inr g1 ↦ elim (lt_or_le i (3 * m)) [
      | inl h2 ↦ subst P (omega arith) (b2 (i - 2 * m) (omega arith))
      | inr g2 ↦ elim (lt_or_le i (4 * m)) [
        | inl h3 ↦ subst P (omega arith) (b3 (i - 3 * m) (omega arith))
        | inr g3 ↦ rest i g3
      ]
    ]
  ]
]

-- The digits of an array from word `c` on.
pub at_word :
    (xs : List ℕ) (c p : ℕ) → bit_at xs (64 * c + p) ≡ bit (get_or xs (c + p / 64) 0) (p % 64)
unfolding bit_at
at_word xs c p =
    bit_cong {i = (64 * c + p) % 64} {j = p % 64}
      (ap (λ t. get_or xs t 0) {x = (64 * c + p) / 64} {y = c + p / 64} (omega arith)) (omega arith)

pub bit_at_past : (xs : List ℕ) (p : ℕ) → 64 * length xs ≤ p → bit_at xs p ≡ false
unfolding bit_at
bit_at_past xs p h =
    ap (λ t. bit t (p % 64)) (get_or_past xs (p / 64) 0 (omega arith)) ∙ bit-zero (p % 64)

pub take-IsWords : (w m : ℕ) (xs : List ℕ) → IsWords w xs → IsWords w (take m xs)
take-IsWords w m xs h i = elim (lt_or_le i m) [
  | inl l ↦ rw (get_or-take m xs i 0 l) (h i)
  | inr g ↦ rw (get_or_past (take m xs) i 0 (omega (arith, length-take m xs))) (omega (arith, h i))
]

pub drop-IsWords : (w m : ℕ) (xs : List ℕ) → IsWords w xs → IsWords w (drop m xs)
drop-IsWords w m xs h i = rw (get_or-drop m xs i 0) (h (m + i))

-- The halves of an array of `2 * m` words, and the sum of the halves.
module _ (m : ℕ) (xs : List ℕ) (size : length xs ≡ 2 * m) where
  pub length-half : length (take m xs) ≡ m
  length-half = omega (arith, length-take m xs, size)

  pub length-rest : length (drop m xs) ≡ m
  length-rest = omega (arith, length-drop m xs, size)

  pub first_half : (i : ℕ) → i < 64 * m → bit_at xs i ≡ bit_at (take m xs) i
  unfolding bit_at
  first_half i h = ap (λ t. bit t (i % 64)) (sym (get_or-take m xs (i / 64) 0 (omega arith)))

  pub second_half : (i : ℕ) → bit_at xs (64 * m + i) ≡ bit_at (drop m xs) i
  second_half i =
      at_word xs m i
      ∙ ap (λ t. bit t (i % 64)) (sym (get_or-drop m xs (i / 64) 0))
      ∙ unfold bit_at in refl

  pub both_halves :
      (q : ℕ) → bit_at xs q ≡ xor (bit_at (take m xs) q) (shifted (64 * m) (bit_at (drop m xs)) q)
  both_halves q = elim (lt_or_le q (64 * m)) [
    | inl h ↦ first_half q h ∙ rw (lt→ltb q (64 * m) h) (sym (xor-false (bit_at (take m xs) q)))
    | inr g ↦
        bit_at_cong xs {p = q} {q = 64 * m + (q - 64 * m)} (omega arith)
        ∙ second_half (q - 64 * m)
        ∙ rw (le→ltb q (64 * m) g, bit_at_past (take m xs) q (omega (arith, length-half)))
            (sym (xor_comm false (bit_at (drop m xs) (q - 64 * m)) ∙ xor-false _))
  ]

  pub first_past : (q : ℕ) → 64 * m ≤ q → bit_at (take m xs) q ≡ false
  first_past q h = bit_at_past (take m xs) q (omega (arith, length-half))

  pub second_past : (q : ℕ) → 64 * m ≤ q → bit_at (drop m xs) q ≡ false
  second_past q h = bit_at_past (drop m xs) q (omega (arith, length-rest))

  module _ (s : List ℕ) (len : length s ≡ m)
      (is : (i : ℕ) → i < m → get_or s i 0 ≡ bit_xor (get_or xs i 0) (get_or xs (m + i) 0)) where
    pub sum_of_halves : (q : ℕ) → bit_at s q ≡ xor (bit_at (take m xs) q) (bit_at (drop m xs) q)
    sum_of_halves q = elim (lt_or_le q (64 * m)) [
      | inl h ↦
          unfold bit_at in
          ap (λ t. bit t (q % 64)) (is (q / 64) (omega arith))
          ∙ bit-xor (q % 64) _ _
          ∙ ap₂ xor (ap (λ t. bit t (q % 64)) (sym (get_or-take m xs (q / 64) 0 (omega arith))))
              (ap (λ t. bit t (q % 64)) (sym (get_or-drop m xs (q / 64) 0)))
      | inr g ↦
          bit_at_past s q (omega (arith, len))
          ∙ rw (first_past q g, second_past q g) (sym (xor-false false))
    ]

    pub sum-IsWords : IsWords 64 xs → IsWords 64 s
    sum-IsWords h i = elim (lt_or_le i m) [
      | inl l ↦ rw (is i l) (bit_xor-lt 64 _ _ (h i) (h (m + i)))
      | inr g ↦ rw (get_or_past s i 0 (omega (arith, len))) (omega arith)
    ]
