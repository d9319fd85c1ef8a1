-- ===== src/Poly.antt =====
-- Polynomials over two elements, as the function that gives each coefficient: the independent
-- description of what the arrays of gf2x/ hold. Addition is `xor`, coefficient by coefficient.
pub mod Sum
pub mod Product
pub mod Cyclic
pub mod Remainder
pub mod Karatzuba
use bike_modify.Base.{ℕ, zero, suc, ◌+◌, ◌-◌, ◌%◌, Bool, true, false, ◌&&◌, xor, ltb, if◌then◌else◌}

-- The sum of `h 0` to `h (n - 1)`.
unfoldable pub xor_sum : ℕ → (ℕ → Bool) → Bool
xor_sum zero h = false
xor_sum (suc n) h = xor (xor_sum n h) (h n)

-- `x^k * g`
abbrev pub shifted : ℕ → (ℕ → Bool) → ℕ → Bool
shifted k g p = if ltb p k then false else g (p - k)

-- The product of the first `n` terms of `f` and of `g`, by the schoolbook.
unfoldable pub product : ℕ → (ℕ → Bool) → (ℕ → Bool) → ℕ → Bool
unfolding xor_sum
product n f g p = xor_sum n (λ i. f i && shifted i g p)

-- The product of polynomials of `r` terms modulo `x^r - 1`.
unfoldable pub cyclic_product : ℕ → (ℕ → Bool) → (ℕ → Bool) → ℕ → Bool
unfolding xor_sum
cyclic_product r f g p = xor_sum r (λ i. f i && g ((p + r - i) % r))
