-- ===== src/Gf2x/Cyclic.antt =====
-- `gf2x_mod_mul` multiplies modulo `x^R_BITS - 1`.
use bike_modify.Base.{ℕ, ◌+◌, ◌-◌, ◌*◌, ◌^◌, ◌≤◌, ◌<◌, ◌≡◌, ap, ap₂, ◌∙◌, arith, List, length}
use bike_modify.Base.{false, xor}
use bike_modify.Word.{IsWords, bit_at}
use bike_modify.Params.{
  Level, level1, level3, level5, r_bits, r_qw, r_padded_qw, padded_room, layout,
}
use bike_modify.Poly.{product, cyclic_product}
use bike_modify.Poly.Cyclic.{cyclic_product_lem}
use bike_modify.Gf2x.{karatzuba, gf2x_mod_mul}
use bike_modify.Gf2x.Blocks.{IsProductOf}
use bike_modify.Gf2x.Karatzuba.{karatzuba_lem}
use bike_modify.Gf2x.Reduce.{red_lem}

-- `padded_r_t`: a polynomial of `R_BITS` digits in an array of `R_PADDED_QW` words.
pub record IsPadded (l : Level) (a : List ℕ) : Type 0 where
  pub size : length a ≡ r_padded_qw l
  pub words : IsWords 64 a
  pub past : (p : ℕ) → r_bits l ≤ p → bit_at a p ≡ false

-- The number of halvings of an array of `R_PADDED_QW` words.
halvings : Level → ℕ
halvings level1 = 8
halvings level3 = 9
halvings level5 = 10

halvings-lt : (l : Level) → halvings l < 12
unfolding halvings
halvings-lt level1 = omega arith
halvings-lt level3 = omega arith
halvings-lt level5 = omega arith

padded_words : (l : Level) → r_padded_qw l ≡ 2 ^ halvings l
unfolding halvings r_padded_qw
padded_words level1 = omega arith
padded_words level3 = omega arith
padded_words level5 = omega arith

padded_digits : (l : Level) → r_bits l + (64 * r_padded_qw l - r_bits l) ≡ 64 * r_padded_qw l
padded_digits l = omega (arith, padded_room l, layout l)

reduced_digit :
    (l : Level) (a b : List ℕ) (p : ℕ)
    → IsPadded l a
    → IsPadded l b
    → (p < r_bits l
        → bit_at (gf2x_mod_mul l a b) p ≡ cyclic_product (r_bits l) (bit_at a) (bit_at b) p)
      × (r_bits l ≤ p → p < 64 * (2 * r_qw l) → bit_at (gf2x_mod_mul l a b) p ≡ false)
unfolding gf2x_mod_mul
reduced_digit l a b p sa sb =
    let n = r_padded_qw l in
    let pow = padded_words l in
    let whole : IsProductOf n a b (karatzuba 12 a b n) = rw pow (
      karatzuba_lem 12 (halvings l) a b (halvings-lt l) (sa.size ∙ pow) (sb.size ∙ pow) sa.words
        sb.words) in
    let digits = λ (q : ℕ).
      whole.sum q
      ∙ ap (λ t. product t (bit_at a) (bit_at b) q) {x = 64 * n}
          {y = r_bits l + (64 * n - r_bits l)} (omega (arith, padded_digits l)) in
    let reduced =
      red_lem l (karatzuba 12 a b n) (omega (arith, whole.size, padded_room l)) whole.words p in
    (
      λ h.
          reduced.0 h
          ∙ ap₂ xor (digits p) (digits (p + r_bits l))
          ∙ cyclic_product_lem (r_bits l) (64 * n - r_bits l) (bit_at a) (bit_at b) p h sa.past
              sb.past,
      reduced.1,
    )

-- On padded polynomials `gf2x_mod_mul` multiplies modulo `x^R_BITS - 1`: the digits of the result below
-- `R_BITS` are those of the cyclic product.
pub gf2x_mod_mul_lem :
    (l : Level) (a b : List ℕ) (p : ℕ)
    → IsPadded l a
    → IsPadded l b
    → p < r_bits l
    → bit_at (gf2x_mod_mul l a b) p ≡ cyclic_product (r_bits l) (bit_at a) (bit_at b) p
gf2x_mod_mul_lem l a b p sa sb = (reduced_digit l a b p sa sb).0

-- The digits from `R_BITS` to the end of the `2 * R_QW` words are 0.
pub gf2x_mod_mul_past :
    (l : Level) (a b : List ℕ) (p : ℕ)
    → IsPadded l a
    → IsPadded l b
    → r_bits l ≤ p
    → p < 64 * (2 * r_qw l)
    → bit_at (gf2x_mod_mul l a b) p ≡ false
gf2x_mod_mul_past l a b p sa sb = (reduced_digit l a b p sa sb).1
