-- ===== src/Bits/Step.antt =====
-- The native bit operations, one binary digit at a time.
use Prim.Native.Nat.{min, max, digits, bitwise, differ}
use Prim.Native.Nat.{bit_and-bitwise, bit_or-bitwise, bit_xor-bitwise}
use bike_modify.Base.{ℕ, zero, suc, ◌+◌, ◌*◌, ◌/◌, ◌%◌, ◌≤◌, bit_and, bit_or, bit_xor}
use bike_modify.Base.{◌≡◌, refl, arith}

module _ (past : ℕ → ℕ) (join : ℕ → ℕ → ℕ) where
  -- Rounds that the number has no digits for change nothing.
  enough_rounds :
      (x y k more : ℕ) → x ≤ k → x ≤ more → digits past join k x y ≡ digits past join more x y
  enough_rounds zero y zero zero p q = refl
  enough_rounds zero y zero (suc more) p q = refl
  enough_rounds zero y (suc k) zero p q = refl
  enough_rounds zero y (suc k) (suc more) p q = refl
  enough_rounds (suc x) y zero more p q = absurd (omega arith)
  enough_rounds (suc x) y (suc k) zero p q = absurd (omega arith)
  enough_rounds (suc x) y (suc k) (suc more) p q =
      rw (enough_rounds (suc x / 2) (y / 2) k more (omega arith) (omega arith))

  lowest_digit :
      (x y : ℕ)
      → join (suc x % 2) (y % 2) + 2 * bitwise past join (suc x / 2) (y / 2)
        ≡ bitwise past join (suc x) y
  lowest_digit x y =
      omega (arith, enough_rounds (suc x / 2) (y / 2) x (suc x / 2) (omega arith) (omega arith))

pub bit_xor_step : (x y : ℕ) → bit_xor x y ≡ bit_xor (x / 2) (y / 2) * 2 + differ (x % 2) (y % 2)
bit_xor_step zero y = simp bit_xor-bitwise (omega arith)
bit_xor_step (suc x) y = simp bit_xor-bitwise (omega (arith, lowest_digit (λ t. t) differ x y))

pub bit_and_step : (x y : ℕ) → bit_and x y ≡ bit_and (x / 2) (y / 2) * 2 + min (x % 2) (y % 2)
bit_and_step zero y = simp bit_and-bitwise (omega arith)
bit_and_step (suc x) y = simp bit_and-bitwise (omega (arith, lowest_digit (λ t. 0) min x y))

pub bit_or_step : (x y : ℕ) → bit_or x y ≡ bit_or (x / 2) (y / 2) * 2 + max (x % 2) (y % 2)
bit_or_step zero y = simp bit_or-bitwise (omega arith)
bit_or_step (suc x) y = simp bit_or-bitwise (omega (arith, lowest_digit (λ t. t) max x y))
