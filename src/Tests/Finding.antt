-- ===== src/Tests/Finding.antt =====
-- What the reference decoder finds for the secret polynomials 1 and 0, with 71 times the index 0.
use bike_modify.Base.{
  ℕ, zero, suc, ◌+◌, ◌-◌, ◌*◌, ◌/◌, ◌%◌, ◌^◌, ◌≤◌, ◌<◌, ◌≡◌, ap, ap₂, ◌∙◌, arith,
}
use bike_modify.Base.{
  [], replicate, Bool, true, false, xor, ◌&&◌, leb, ==_iff, gt→leb, ◌==◌, to_nat, lt_or_le, inl,
  inr,
}
use mathlib.Core.Bool.{and-false}
use native.Mathlib.Nat.{mod-eq_of_lt, mod-eq-sub-mod}
use bike_modify.Params.{level1, r_bits, dv, max_it, threshold_coeff0, threshold_coeff1}
use bike_modify.Utilities.Weight.{ones, ones_cong}
use bike_modify.Poly.{cyclic_product}
use bike_modify.Poly.Sum.{sum_cong, sum_false, sum-at, xor-false}
use bike_modify.Decode.Vectors.{ones-zero}
use bike_modify.Decode.Reference.{
  Digits, Places, failed, threshold, half_threshold, remainder, suspects, flip, both, black,
  flip_round, masked_round, round, rounds, reference, is_solved,
}

-- The factor 1.
product_one :
    (r : ℕ) (f g : ℕ → Bool) (p : ℕ)
    → ((i : ℕ) → g i ≡ (i == 0))
    → p < r
    → cyclic_product r f g p ≡ f p
unfolding cyclic_product
product_one r f g p one h =
    sum_cong r _ (λ i. f i && (i == p)) (λ i k. ap (λ t. f i && t) (one _ ∙ place i k))
    ∙ sum-at r p f
    ∙ ground arith
  where
    place : (i : ℕ) → i < r → ((p + r - i) % r == 0) ≡ (i == p)
    place i k = elim (lt_or_le p i) [
      | inl l ↦ ground (arith, mod-eq_of_lt {n = p + r - i} {m = r} (omega arith))
      | inr l ↦ ground (
        arith,
        mod-eq-sub-mod {n = p + r - i} {m = r} (omega arith),
        mod-eq_of_lt {n = p + r - i - r} {m = r} (omega arith),
      )
    ]

pub product_none :
    (r : ℕ) (f g : ℕ → Bool) (p : ℕ) → ((i : ℕ) → g i ≡ false) → cyclic_product r f g p ≡ false
unfolding cyclic_product
product_none r f g p none = sum_false r _ (λ i l. ground (arith, none ((p + r - i) % r)))

of_weight : (n : ℕ) → n ≤ 134 → (135300000 + 69721 * n) / 10 ^ 7 ≤ 71
of_weight n h = omega arith

least : (n : ℕ) → 13 ≤ (135300000 + 69721 * n) / 10 ^ 7
least n = omega arith

failed_lem :
    (n : ℕ) (s : ℕ → Bool) (p : ℕ)
    → p < r_bits level1
    → failed level1 s (replicate n 0) p ≡ n * to_nat (s p)
failed_lem zero s p h = omega arith
failed_lem (suc n) s p h =
    let e : (p + 0) % r_bits level1 ≡ p =
      ap (λ t. t % r_bits level1) {x = p + 0} {y = p} (omega arith)
      ∙ mod-eq_of_lt {n = p} {m = r_bits level1} h in
    ap₂ (λ a b. to_nat (s a) + b) e (failed_lem n s p h) ∙ omega arith

module _ (c h : Digits) (one : (i : ℕ) → h.poly0 i ≡ (i == 0)) (none : (i : ℕ) → h.poly1 i ≡ false)
    (few : ones c.poly0 (r_bits level1) ≤ 134) where
  abbrev pub w : Places
  w = record { places0 = replicate 71 0; places1 = [] }

  abbrev start : Digits
  start = record { poly0 = λ p. false; poly1 = λ p. false }

  remainder_lem :
      (e : Digits) (p : ℕ)
      → p < r_bits level1
      → remainder level1 c h e p ≡ xor (c.poly0 p) (e.poly0 p)
  unfolding remainder
  remainder_lem e p k =
      ap₂ xor (product_one (r_bits level1) (λ i. xor (c.poly0 i) (e.poly0 i)) h.poly0 p one k)
        (product_none (r_bits level1) (λ i. xor (c.poly1 i) (e.poly1 i)) h.poly1 p none)
      ∙ xor-false (xor (c.poly0 p) (e.poly0 p))

  -- The errors are found.
  pub record IsFound (e : Digits) : Type 0 where
    pub first : (p : ℕ) → p < r_bits level1 → e.poly0 p ≡ c.poly0 p
    pub second : (p : ℕ) → p < r_bits level1 → e.poly1 p ≡ false

  nothing_left :
      (e : Digits) (p : ℕ) → IsFound e → p < r_bits level1 → remainder level1 c h e p ≡ false
  nothing_left e p i k =
      remainder_lem e p k ∙ ap (xor (c.poly0 p)) (i.first p k) ∙ unfold xor in ground arith

  threshold-ge : (s : ℕ → Bool) → 13 ≤ threshold level1 s
  unfolding threshold threshold_coeff0 threshold_coeff1
  threshold-ge s = least (ones s (r_bits level1))

  -- With no syndrome left no digit is marked.
  suspects_none :
      (e : Digits) (t extra p : ℕ)
      → IsFound e
      → 13 ≤ t
      → extra ≤ 3
      → p < r_bits level1
      → let f = suspects level1 w (remainder level1 c h e) t extra in
        (f.poly0 p ≡ false) × (f.poly1 p ≡ false)
  unfolding suspects
  suspects_none e t extra p i low small k =
      let z : failed level1 (remainder level1 c h e) (replicate 71 0) p ≡ 0 =
        failed_lem 71 (remainder level1 c h e) p k
        ∙ ap (λ b. 71 * to_nat b) (nothing_left e p i k)
        ∙ omega arith in
      (gt→leb _ t (omega (arith, z)), gt→leb _ t (omega arith))

  flip_round-IsFound : (e : Digits) → IsFound e → IsFound (flip_round level1 c h w e)
  unfolding flip_round flip black
  flip_round-IsFound e i =
      let quiet = λ (p : ℕ) (k : p < r_bits level1).
        suspects_none e (threshold level1 (remainder level1 c h e)) 0 p i (threshold-ge _)
          (omega arith) k in
      record {
        first = λ p k. ap (xor (e.poly0 p)) (quiet p k).0 ∙ xor-false (e.poly0 p) ∙ i.first p k;
        second = λ p k. ap (xor (e.poly1 p)) (quiet p k).1 ∙ xor-false (e.poly1 p) ∙ i.second p k;
      }

  masked_round-IsFound : (m e : Digits) → IsFound e → IsFound (masked_round level1 c h w m e)
  unfolding masked_round flip both half_threshold dv
  masked_round-IsFound m e i =
      let quiet = λ (p : ℕ) (k : p < r_bits level1).
        suspects_none e (half_threshold level1) 0 p i (omega arith) (omega arith) k in
      record {
        first = λ p k.
            ap (λ t. xor (e.poly0 p) (m.poly0 p && t)) (quiet p k).0
            ∙ ap (xor (e.poly0 p)) (and-false (m.poly0 p))
            ∙ xor-false (e.poly0 p)
            ∙ i.first p k;
        second = λ p k.
            ap (λ t. xor (e.poly1 p) (m.poly1 p && t)) (quiet p k).1
            ∙ ap (xor (e.poly1 p)) (and-false (m.poly1 p))
            ∙ xor-false (e.poly1 p)
            ∙ i.second p k;
      }

  -- The first flip finds them: the syndrome is the first polynomial of the ciphertext.
  first_flip-IsFound : IsFound (flip_round level1 c h w start)
  unfolding flip_round flip black suspects
  first_flip-IsFound =
      let s = remainder level1 c h start in
      let same : (p : ℕ) → p < r_bits level1 → s p ≡ c.poly0 p =
        λ p k. remainder_lem start p k ∙ xor-false (c.poly0 p) in
      let weight : threshold level1 s ≤ 71 =
        unfold threshold in
        unfold threshold_coeff0 in
        unfold threshold_coeff1 in
        of_weight (ones s (r_bits level1))
          (omega (arith, few, ones_cong s c.poly0 (r_bits level1) same)) in
      record {
        first = λ p k.
            reached (s p) (threshold level1 s) _ (threshold-ge s) weight (failed_lem 71 s p k)
            ∙ same p k;
        second = λ p k. reached false (threshold level1 s) 0 (threshold-ge s) weight (omega arith);
      }
    where
      reached :
          (b : Bool) (t n : ℕ) → 13 ≤ t → t ≤ 71 → n ≡ 71 * to_nat b → xor false (leb t (n + 0)) ≡ b
      reached true t n low high e = unfold xor in ground arith
      reached false t n low high e = unfold xor in ground arith

  round-IsFound : (n : ℕ) (e : Digits) → IsFound e → IsFound (round level1 c h w n e)
  unfolding round
  round-IsFound zero e i =
      masked_round-IsFound _ _ (masked_round-IsFound _ _ (flip_round-IsFound e i))
  round-IsFound (suc n) e i = flip_round-IsFound e i

  rounds-IsFound : (n i : ℕ) (e : Digits) → IsFound e → IsFound (rounds level1 c h w n i e)
  unfolding rounds
  rounds-IsFound zero i e f = f
  rounds-IsFound (suc n) i e f = rounds-IsFound n (i + 1) _ (round-IsFound i e f)

  pub reference-IsFound : IsFound (reference level1 c h w)
  unfolding reference rounds max_it round
  reference-IsFound =
      rounds-IsFound 4 1 _ (masked_round-IsFound _ _ (masked_round-IsFound _ _ first_flip-IsFound))

  pub reference-solved : is_solved level1 c h (reference level1 c h w) ≡ true
  unfolding is_solved
  reference-solved = (==_iff _ 0).1 (
      (ones-zero (remainder level1 c h (reference level1 c h w)) (r_bits level1)).1
        (λ p k. nothing_left _ p reference-IsFound k))
