-- ===== src/Utilities/Compare.antt =====
-- What the comparisons without branches return.
use bike_modify.Base.{lt_or_le, subst}
use bike_modify.Base.{ℕ, zero, suc, ◌+◌, ◌-◌, ◌*◌, ◌/◌, ◌%◌, ◌^◌, ◌≤◌, ◌<◌, ◌≡◌, refl, arith}
use native.Mathlib.Nat.{pow-suc, zero-add, one-le-pow, pow-le-pow_right}
use bike_modify.Base.{
  List, get_or, for_range, for_range_inv, to_nat, eq_or_ne, inl, inr, ◌⊎◌, ap, ◌∙◌, bit_or, bit_xor,
}
use bike_modify.Word.{bit_or-eq-zero_iff, bit_xor-eq-zero_iff}
use bike_modify.Base.{if◌then◌else◌, ltb, ◌==◌, ◌↔◌}
use bike_modify.Utilities.{secure_l32_mask, secure_l32_mask_aarch64, secure_l32_mask_x86}
use bike_modify.Utilities.{bit_scan_reverse, scan_from, secure_cmp, iszero}

-- On values that fit 32 bits the mask is 0 if `v1 < v2`, and all ones otherwise.
pub secure_l32_mask_lem :
    (v1 v2 : ℕ)
    → v1 < 2 ^ 32
    → v2 < 2 ^ 32
    → secure_l32_mask v1 v2 ≡ (if ltb v1 v2 then 0 else 2 ^ 32 - 1)
unfolding secure_l32_mask
secure_l32_mask_lem v1 v2 p q = ground arith

-- On values below 2^31 the three branches of `secure_l32_mask` agree.
pub secure_l32_mask_branches :
    (v1 v2 : ℕ)
    → v1 < 2 ^ 31
    → v2 < 2 ^ 31
    → (secure_l32_mask_aarch64 v1 v2 ≡ secure_l32_mask v1 v2)
      × (secure_l32_mask_x86 v1 v2 ≡ secure_l32_mask v1 v2)
unfolding secure_l32_mask secure_l32_mask_aarch64 secure_l32_mask_x86
secure_l32_mask_branches v1 v2 p q = ground arith

-- If `v2` has its top digit set and `v1` has not, the portable branch returns 0 and the x86 branch
-- all ones.
pub secure_l32_mask_x86_differs :
    (v1 v2 : ℕ)
    → v1 < 2 ^ 31
    → 2 ^ 31 ≤ v2
    → v2 < 2 ^ 32
    → (secure_l32_mask v1 v2 ≡ 0) × (secure_l32_mask_x86 v1 v2 ≡ 2 ^ 32 - 1)
unfolding secure_l32_mask secure_l32_mask_x86
secure_l32_mask_x86_differs v1 v2 p q r = ground arith

test_one : (v : ℕ) → to_nat (0 == v) ≡ 1 → v ≡ 0
test_one v e = ground arith

test_zero : (v : ℕ) → v ≡ 0 → to_nat (0 == v) ≡ 1
test_zero v e = ground arith

-- A loop that collects differences with `|` ends at 0 exactly if there was none.
or_loop :
    (f : ℕ → ℕ) (n : ℕ)
    → (for_range n 0 (λ i res. bit_or res (f i)) 0 ≡ 0) ↔ ((i : ℕ) → i < n → f i ≡ 0)
or_loop f n =
    for_range_inv (λ m res. (res ≡ 0) ↔ ((i : ℕ) → i < m → f i ≡ 0)) (λ i res. bit_or res (f i)) n 0
      n 0
      (λ m res p q e. (
        (λ z i h. elim (eq_or_ne i m) [
          | inl same ↦ rw same ((bit_or-eq-zero_iff res (f m)).0 z).1
          | inr ne ↦ e.0 ((bit_or-eq-zero_iff res (f m)).0 z).0 i (omega arith)
        ]),
        (λ h. (bit_or-eq-zero_iff res (f m)).1 (e.1 (λ i k. h i (omega arith)), h m (omega arith))),
      ))
      (omega arith) ((λ z i h. absurd (omega arith)), (λ h. refl))

-- `secure_cmp` returns 1 if the first `size` bytes are equal, and 0 otherwise.
pub secure_cmp_lem :
    (a b : List ℕ) (size : ℕ)
    → ((secure_cmp a b size ≡ 1) ↔ ((i : ℕ) → i < size → get_or a i 0 ≡ get_or b i 0))
      × (secure_cmp a b size ≤ 1)
unfolding secure_cmp
secure_cmp_lem a b size =
    let f = λ (i : ℕ). bit_xor (get_or a i 0) (get_or b i 0) in
    let v = for_range size 0 (λ i res. bit_or res (f i)) 0 in
    (
      (
        (λ e i h.
            (bit_xor-eq-zero_iff (get_or a i 0) (get_or b i 0)).0
              ((or_loop f size).0 (test_one v e) i h)),
        (λ h. test_zero v (
            (or_loop f size).1
              (λ i k. (bit_xor-eq-zero_iff (get_or a i 0) (get_or b i 0)).1 (h i k)))),
      ),
      ground arith,
    )

-- `iszero` returns 1 if the first `len` bytes are 0, and 0 otherwise.
pub iszero_lem :
    (s : List ℕ) (len : ℕ)
    → ((iszero s len ≡ 1) ↔ ((i : ℕ) → i < len → get_or s i 0 ≡ 0)) × (iszero s len ≤ 1)
unfolding iszero
iszero_lem s len =
    let f = λ (i : ℕ). get_or s i 0 in
    let v = for_range len 0 (λ i res. bit_or res (f i)) 0 in
    (
      ((λ e. (or_loop f len).0 (test_one v e)), (λ h. test_zero v ((or_loop f len).1 h))),
      ground arith,
    )

scan_from_lem :
    (rounds val index : ℕ)
    → val < 2 ^ rounds
    → index + rounds ≤ 64
    → (k : ℕ) × (scan_from rounds val index ≡ index + k)
      × (k ≤ rounds)
      × (val < 2 ^ k)
      × (((val ≡ 0) × (k ≡ 0)) ⊎ (2 ^ k ≤ 2 * val))
unfolding scan_from
scan_from_lem zero val index h r =
    (0, omega arith, omega arith, omega arith, inl (omega arith, refl))
scan_from_lem (suc rounds) val index h r = elim (eq_or_ne val 0) [
  | inl z ↦ (0, ground arith, omega arith, omega arith, inl (z, refl))
  | inr nz ↦
      let (k, e, few, below, above) =
        scan_from_lem rounds (val / 2) ((index + 1) % 2 ^ 8) (omega (arith, pow-suc 2 rounds))
          (omega arith) in
      (
        suc k,
        ground (arith, e),
        omega arith,
        omega (arith, pow-suc 2 k),
        inr (ground (arith, pow-suc 2 k, above, ap (λ (t : ℕ). 2 ^ t) {x = k} {y = 0})),
      )
]

-- Two to the number of digits is above 2^63 and at most 2^64 exactly for the number 64.
top_digits :
    (val r : ℕ)
    → val < 2 ^ r
    → r ≤ 64
    → ((val ≡ 0) × (r ≡ 0)) ⊎ (2 ^ r ≤ 2 * val)
    → ((val < 2 ^ 63) × (r < 64)) ⊎ ((2 ^ 63 ≤ val) × (r ≡ 64))
top_digits val r below few half = elim (lt_or_le r 64) [
  | inr g ↦
      let full : r ≡ 64 = omega arith in
      let two : 2 ^ 64 ≤ 2 * val = elim half [
        | inl (z, none) ↦ absurd (omega arith)
        | inr h ↦ subst (λ k. 2 ^ k ≤ 2 * val) full h
      ] in
      inr (omega arith, full)
  | inl g ↦
      let small : 2 ^ r ≤ 2 ^ 63 =
        pow-le-pow_right {n = 2} (omega arith) {i = r} {j = 63} (omega arith) in
      inl (omega arith, g)
]

-- On a 64-bit value `bit_scan_reverse` ends with the number of its digits: the value is below two
-- to that number, and at least half of it unless both are 0. The number is 64 for the values from
-- 2^63 on, and below 64 for the others.
pub bit_scan_reverse_lem :
    (val : ℕ)
    → val < 2 ^ 64
    → (val < 2 ^ bit_scan_reverse val)
      × (bit_scan_reverse val ≤ 64)
      × (((val ≡ 0) × (bit_scan_reverse val ≡ 0)) ⊎ (2 ^ bit_scan_reverse val ≤ 2 * val))
      × (((val < 2 ^ 63) × (bit_scan_reverse val < 64))
          ⊎ ((2 ^ 63 ≤ val) × (bit_scan_reverse val ≡ 64)))
unfolding bit_scan_reverse
bit_scan_reverse_lem val h =
    let (k, e, few, below, above) = scan_from_lem 64 val 0 h (omega arith) in
    rw (e ∙ zero-add k) (below, few, above, top_digits val k below few above)

-- At a power of two below 2^64 `bit_scan_reverse` returns one more than the logarithm.
pub bit_scan_reverse-pow : (k : ℕ) → k < 64 → bit_scan_reverse (2 ^ k) ≡ k + 1
bit_scan_reverse-pow k h =
    let r = bit_scan_reverse (2 ^ k) in
    let small : 2 ^ suc k ≤ 2 ^ 64 =
      pow-le-pow_right {n = 2} (omega arith) {i = suc k} {j = 64} h in
    let pos = one-le-pow k 2 (omega arith) in
    let (below, few, half, _) = bit_scan_reverse_lem (2 ^ k) (omega (arith, pow-suc 2 k)) in
    let not_less : r ≤ k → 2 ^ r ≤ 2 ^ k = pow-le-pow_right {n = 2} (omega arith) {i = r} {j = k} in
    let not_more : suc (suc k) ≤ r → 2 ^ suc (suc k) ≤ 2 ^ r =
      pow-le-pow_right {n = 2} (omega arith) {i = suc (suc k)} {j = r} in
    ground (arith, half, below, pos, not_less, not_more, pow-suc 2 k, pow-suc 2 (suc k))
