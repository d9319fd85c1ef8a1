-- ===== src/Upc/Columns.antt =====
-- The counter that the slices hold at a digit.
use native.Mathlib.Nat.{pow-suc}
use bike_modify.Base.{
  ℕ, zero, suc, ◌+◌, ◌*◌, ◌^◌, ◌≤◌, ◌<◌, ◌≡◌, arith, List, [], ◌∷◌, length, to_nat,
}
use bike_modify.Base.{get_or, ltb, not, ◌-◌}
use bike_modify.Word.{bit_at, IsWords}
use bike_modify.Params.{Level, r_qw}
use bike_modify.Upc.{Slices}

-- The number whose digits stand at `p` in the slices.
abbrev pub count : Slices → ℕ → ℕ
count [] p = 0
count (slice ∷ upc) p = to_nat (bit_at slice p) + 2 * count upc p

-- Every slice has room for the words of a polynomial.
abbrev pub AreSlices : Level → Slices → Type 0
AreSlices l [] = Unit
AreSlices l (slice ∷ upc) = (r_qw l ≤ length slice) × IsWords 64 slice × AreSlices l upc

pub count-lt : (upc : Slices) (p : ℕ) → count upc p < 2 ^ length upc
count-lt [] p = omega arith
count-lt (slice ∷ upc) p = ground (arith, count-lt upc p, pow-suc 2 (length upc))

-- The last slice holds the highest digit of the counters.
abbrev pub last_slice : Slices → List ℕ
last_slice upc = get_or upc (length upc - 1) []

pub last_slice_lem :
    (upc : Slices) (p n : ℕ)
    → length upc ≡ suc n
    → bit_at (last_slice upc) p ≡ not (ltb (count upc p) (2 ^ n))
last_slice_lem [] p n e = absurd (omega arith)
last_slice_lem (slice ∷ []) p zero e = ground arith
last_slice_lem (slice ∷ []) p (suc n) e = absurd (omega arith)
last_slice_lem (slice ∷ (next ∷ upc)) p zero e = absurd (omega arith)
last_slice_lem (slice ∷ (next ∷ upc)) p (suc n) e =
    ground (arith, last_slice_lem (next ∷ upc) p n (omega arith), pow-suc 2 n)
