-- ===== src/Gf2x/Add.antt =====
-- `gf2x_add` adds polynomials digit by digit.
use bike_modify.Base.{
  ℕ, ◌/◌, ◌%◌, ◌*◌, ◌≤◌, ◌<◌, ◌≡◌, refl, ap, ◌∙◌, arith, List, length, get_or, fill_inside,
  length-fill,
}
use bike_modify.Base.{Bool, xor, bit_xor}
use bike_modify.Bits.{bit, bit-xor}
use bike_modify.Bytes.{byte_bit}
use bike_modify.Gf2x.{gf2x_add}

-- In the first `bytelen` bytes each digit of the result is the exclusive or of the digits of the
-- operands.
pub gf2x_add_lem :
    (res a b : List ℕ) (bytelen p : ℕ)
    → bytelen ≤ length res
    → p < 8 * bytelen
    → byte_bit (gf2x_add res a b bytelen) p ≡ xor (byte_bit a p) (byte_bit b p)
unfolding gf2x_add byte_bit
gf2x_add_lem res a b n p h k =
    ap (λ t. bit t (p % 8))
      (fill_inside 0 (λ i r. bit_xor (get_or a i 0) (get_or b i 0)) (λ k xs ys e. refl) n 0 res
        (p / 8) (omega arith) (omega arith) (omega arith))
    ∙ bit-xor (p % 8) (get_or a (p / 8) 0) (get_or b (p / 8) 0)

pub length-gf2x_add :
    (res a b : List ℕ) (bytelen : ℕ) → length (gf2x_add res a b bytelen) ≡ length res
unfolding gf2x_add
length-gf2x_add res a b n = length-fill 0 _ n 0 res

xor_cancel : (a b : Bool) → xor (xor a b) b ≡ a
unfolding xor
xor_cancel a b = ground arith

-- Adding the same polynomial twice gives the first digits back: what `reencrypt` adds to the
-- ciphertext is what `encrypt` added.
pub gf2x_add-gf2x_add :
    (res res' a b : List ℕ) (bytelen p : ℕ)
    → bytelen ≤ length res
    → bytelen ≤ length res'
    → p < 8 * bytelen
    → byte_bit (gf2x_add res' (gf2x_add res a b bytelen) b bytelen) p ≡ byte_bit a p
gf2x_add-gf2x_add res res' a b n p h h' k =
    gf2x_add_lem res' (gf2x_add res a b n) b n p h' k
    ∙ ap (λ t. xor t (byte_bit b p)) (gf2x_add_lem res a b n p h k)
    ∙ xor_cancel (byte_bit a p) (byte_bit b p)
