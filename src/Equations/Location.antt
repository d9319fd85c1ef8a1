-- ===== src/Equations/Location.antt =====
-- The test of one digit in `and_index`, and the number of the digits before one.
use bike_modify.Base.{ℕ, zero, suc, ◌-◌, ◌≤◌, ◌<◌, ◌≡◌, refl, sym, ap, ◌∙◌, arith}
use bike_modify.Base.{bit_and, Bool, true, false, not, ◌==◌, to_nat, eq_or_ne, inl, inr, Bool-cases}
use bike_modify.Bits.{bit, bit_ext, bit-and, bit-zero}
use bike_modify.Word.{shl, shl-lt, bit-shl, bit_and-lt}
use bike_modify.Utilities.Weight.{ones}

location-bit : (index i : ℕ) → i < 8 → bit (shl 8 1 index) i ≡ (i == index)
location-bit index i h = bit-shl 8 1 index i h ∙ ground (arith, one (i - index))
  where
    one : (n : ℕ) → bit 1 n ≡ (n == 0)
    one zero = unfold bit in refl
    one (suc n) = unfold bit in (bit-zero n ∙ ground arith)

not_zero : (x : ℕ) → (x ≡ 0 → false ≡ true) → (x == 0) ≡ false
not_zero zero h = sym (h refl)
not_zero (suc x) h = ground arith

-- `location & tmp` tests digit `index`.
pub location_lem :
    (tmp index : ℕ) → index < 8 → (bit_and (shl 8 1 index) tmp == 0) ≡ not (bit tmp index)
location_lem tmp index h = elim (Bool-cases (bit tmp index)) [
  | inl t ↦
      not_zero (bit_and (shl 8 1 index) tmp) (λ e.
        sym (bit-zero index)
        ∙ sym (ap (λ t. bit t index) e)
        ∙ bit-and index _ _
        ∙ ground (arith, location-bit index index h, t))
      ∙ sym (ap not t)
  | inr f ↦
      ap (λ t. t == 0)
        (bit_ext 8 (bit_and (shl 8 1 index) tmp) 0 (bit_and-lt 8 _ tmp (shl-lt 8 1 index))
          (omega arith)
          (λ i k.
            bit-and i _ _
            ∙ ground
                (arith, location-bit index i k, ap (bit tmp) {x = i} {y = index}, f, bit-zero i)))
      ∙ sym (ap not f)
]

pub ones_mono : (f : ℕ → Bool) (p q : ℕ) → p ≤ q → ones f p ≤ ones f q
ones_mono f p zero h = ground arith
ones_mono f p (suc q) h = elim (eq_or_ne p (suc q)) [
  | inl e ↦ rw e (omega arith)
  | inr ne ↦ omega (arith, ones_mono f p q (omega (arith, ne)))
]

pub ones-lt : (f : ℕ → Bool) (p q : ℕ) → p < q → f p ≡ true → ones f p < ones f q
ones-lt f p q h t = omega (arith, ones_mono f (suc p) q h, ap to_nat t)
