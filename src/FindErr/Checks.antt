-- ===== src/FindErr/Checks.antt =====
-- The unsatisfied parity checks of a digit, counted as the definition of the code counts them.
use bike_modify.Base.{ℕ, ◌+◌, ◌%◌, ◌≤◌, ◌<◌, ◌^◌, arith, List, [], ◌∷◌, length, to_nat}
use bike_modify.Word.{bit_at}
use bike_modify.Params.{Level, level1, level3, level5, r_bits, dv, slices, log2_msb}
use bike_modify.Rotate.Small.{Shiftable}

-- For each index `w` of the secret polynomial, digit `(p + w) % R_BITS` of the syndrome.
abbrev pub checks : Level → List ℕ → List ℕ → ℕ → ℕ
checks l s [] p = 0
checks l s (w ∷ wlist) p = to_nat (bit_at s ((p + w) % r_bits l)) + checks l s wlist p

pub checks-le : (l : Level) (s wlist : List ℕ) (p : ℕ) → checks l s wlist p ≤ length wlist
checks-le l s [] p = omega arith
checks-le l s (w ∷ wlist) p = ground (arith, checks-le l s wlist p)

-- Indices of digits that `rotate_right` can rotate by.
abbrev pub AreIndices : Level → (ℕ → ℕ → ℕ) → List ℕ → Type 0
AreIndices l over [] = Unit
AreIndices l over (w ∷ wlist) = (w < r_bits l) × Shiftable over w × AreIndices l over wlist

-- `LOG2_MSB(v)` digits hold `v`, for every `v` that the macro is used at.
pub log2_msb-holds : (v : ℕ) → v < 512 → v < 2 ^ log2_msb v
unfolding log2_msb
log2_msb-holds v h = ground arith

-- The counters of `DV` checks do not use the last slice.
pub log2_msb-le : (l : Level) (v : ℕ) → v ≤ dv l → log2_msb v + 1 ≤ slices l
unfolding log2_msb slices
log2_msb-le level1 v h = ground arith
log2_msb-le level3 v h = ground arith
log2_msb-le level5 v h = ground arith
