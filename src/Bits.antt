-- ===== src/Bits.antt =====
-- The binary digits of a number as truth values: digit `i` of the results of the bit operations
-- and shifts of C, and equality of numbers digit by digit.
mod Step
use Prim.Native.Nat.{min, max, differ}
use native.Mathlib.Nat.{pow-suc, pow-succ', one-le-pow, div-div-eq-div-mul, div-one, suc-sub-suc}
use native.Mathlib.Nat.{add-mul-mod_self_right, mod-eq_of_lt, div-add-mod', mod-lt}
use Step.{bit_and_step, bit_or_step, bit_xor_step}
use bike_modify.Base.{ℕ, zero, suc, ◌+◌, ◌-◌, ◌*◌, ◌/◌, ◌%◌, ◌^◌, ◌≤◌, ◌<◌}
use bike_modify.Base.{bit_and, bit_or, bit_xor, ◌≡◌, refl, sym, ap, ap₂, ◌∙◌, arith}
use bike_modify.Base.{
  Bool, true, false, not, ◌&&◌, ◌||◌, xor, ltb, leb, ◌==◌, if◌then◌else◌, to_nat,
}

-- Digit `i` of `x` is 1.
unfoldable pub bit : ℕ → ℕ → Bool
bit x zero = x % 2 == 1
bit x (suc i) = bit (x / 2) i

pub bit-zero : (i : ℕ) → bit 0 i ≡ false
unfolding bit
bit-zero zero = refl
bit-zero (suc i) = bit-zero i

pub bit-and : (i a b : ℕ) → bit (bit_and a b) i ≡ (bit a i && bit b i)
unfolding bit
bit-and zero a b = ground (arith, bit_and_step a b)
bit-and (suc i) a b =
    ap (λ t. bit t i) (omega (arith, bit_and_step a b)) ∙ bit-and i (a / 2) (b / 2)

pub bit-or : (i a b : ℕ) → bit (bit_or a b) i ≡ (bit a i || bit b i)
unfolding bit
bit-or zero a b = ground (arith, bit_or_step a b)
bit-or (suc i) a b = ap (λ t. bit t i) (omega (arith, bit_or_step a b)) ∙ bit-or i (a / 2) (b / 2)

differ_digits :
    (x y : ℕ) → x < 2 → y < 2 → (differ x y < 2) × ((differ x y == 1) ≡ xor (x == 1) (y == 1))
unfolding xor
differ_digits zero zero h k = (omega arith, refl)
differ_digits zero (suc zero) h k = (omega arith, refl)
differ_digits (suc zero) zero h k = (omega arith, refl)
differ_digits (suc zero) (suc zero) h k = (omega arith, refl)
differ_digits (suc (suc x)) y h k = absurd (omega arith)
differ_digits zero (suc (suc y)) h k = absurd (omega arith)
differ_digits (suc zero) (suc (suc y)) h k = absurd (omega arith)

pub bit-xor : (i a b : ℕ) → bit (bit_xor a b) i ≡ xor (bit a i) (bit b i)
unfolding bit
bit-xor zero a b =
    let d = differ_digits (a % 2) (b % 2) (omega arith) (omega arith) in
    ap (λ t. t == 1) (omega (arith, bit_xor_step a b, d.0)) ∙ d.1
bit-xor (suc i) a b =
    let d = differ_digits (a % 2) (b % 2) (omega arith) (omega arith) in
    ap (λ t. bit t i) (omega (arith, bit_xor_step a b, d.0)) ∙ bit-xor i (a / 2) (b / 2)

pub bit_cong : {x y i j : ℕ} → x ≡ y → i ≡ j → bit x i ≡ bit y j
bit_cong p q = ap₂ bit p q

-- A shift to the right.
pub bit-div-pow : (k x i : ℕ) → bit (x / 2 ^ k) i ≡ bit x (k + i)
unfolding bit
bit-div-pow zero x i =
    bit_cong {x = x / 2 ^ 0} {y = x} {i = i} {j = 0 + i} (omega arith) (omega arith)
bit-div-pow (suc k) x i =
    ap (λ t. bit t i) (rw (pow-succ' 2 k) (sym (div-div-eq-div-mul x 2 (2 ^ k))))
    ∙ bit-div-pow k (x / 2) i
    ∙ bit_cong {x = x} {y = x} {i = suc (k + i)} {j = suc k + i} refl (omega arith)

-- A shift to the left.
pub bit-mul-pow : (k x i : ℕ) → bit (x * 2 ^ k) i ≡ (if ltb i k then false else bit x (i - k))
unfolding bit
bit-mul-pow zero x i =
    bit_cong {x = x * 2 ^ 0} {y = x} {i = i} {j = i - 0} (omega arith) (omega arith) ∙ ground arith
bit-mul-pow (suc k) x zero = ground (arith, ap (λ (t : ℕ). x * t) (pow-suc 2 k))
bit-mul-pow (suc k) x (suc i) =
    ap (λ t. bit t i) (omega (arith, ap (λ (t : ℕ). x * t) (pow-suc 2 k)))
    ∙ bit-mul-pow k x i
    ∙ ground (arith, suc-sub-suc i k)

mod-pow-suc : (w x : ℕ) → x % 2 ^ suc w ≡ x / 2 % 2 ^ w * 2 + x % 2
mod-pow-suc w x =
    ap (λ t. t % 2 ^ suc w) whole
    ∙ add-mul-mod_self_right r q (2 ^ suc w)
    ∙ mod-eq_of_lt {n = r} {m = 2 ^ suc w} small
  where
    q : ℕ
    q = x / 2 / 2 ^ w

    r : ℕ
    r = x / 2 % 2 ^ w * 2 + x % 2

    whole : x ≡ r + q * 2 ^ suc w
    whole = omega (arith, div-add-mod' (x / 2) (2 ^ w), ap (λ (t : ℕ). q * t) (pow-suc 2 w))

    small : r < 2 ^ suc w
    small = omega (arith, mod-lt (x / 2) {m = 2 ^ w} (one-le-pow w 2 (omega arith)), pow-suc 2 w)

-- The lowest `w` digits.
pub bit-mod-pow : (w x i : ℕ) → bit (x % 2 ^ w) i ≡ (ltb i w && bit x i)
unfolding bit
bit-mod-pow zero x i = ap (λ t. bit t i) (omega arith) ∙ bit-zero i ∙ ground arith
bit-mod-pow (suc w) x zero = ground (arith, mod-pow-suc w x)
bit-mod-pow (suc w) x (suc i) =
    ap (λ t. bit t i) (omega (arith, mod-pow-suc w x)) ∙ bit-mod-pow w (x / 2) i ∙ ground arith

-- `~x` in `w` digits.
pub bit-complement : (w x i : ℕ) → x < 2 ^ w → bit (2 ^ w - 1 - x) i ≡ (ltb i w && not (bit x i))
unfolding bit
bit-complement zero x i h = ap (λ t. bit t i) (omega arith) ∙ bit-zero i ∙ ground arith
bit-complement (suc w) x zero h = ground (arith, pow-suc 2 w, one-le-pow w 2)
bit-complement (suc w) x (suc i) h =
    ap (λ t. bit t i) (omega (arith, pow-suc 2 w))
    ∙ bit-complement w (x / 2) i (omega (arith, pow-suc 2 w))
    ∙ ground arith

-- Numbers with the same digits are equal.
pub bit_ext : (w a b : ℕ) → a < 2 ^ w → b < 2 ^ w → ((i : ℕ) → i < w → bit a i ≡ bit b i) → a ≡ b
unfolding bit
bit_ext zero a b p q h = omega arith
bit_ext (suc w) a b p q h =
    let halves : a / 2 ≡ b / 2 =
      bit_ext w (a / 2) (b / 2) (omega (arith, pow-suc 2 w)) (omega (arith, pow-suc 2 w))
        (λ i l. h (suc i) (omega arith)) in
    ground (arith, h 0, halves)

-- A number with no digit from `w` on is below `2 ^ w`.
pub bit-lt-pow : (w a : ℕ) → a < 2 ^ w → (i : ℕ) → w ≤ i → bit a i ≡ false
bit-lt-pow w a h i l =
    ap (λ t. bit t i) (sym (mod-eq_of_lt {n = a} {m = 2 ^ w} h)) ∙ bit-mod-pow w a i ∙ ground arith
