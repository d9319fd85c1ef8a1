-- ===== src/Gf2x/Halves.antt =====
-- `karatzuba_add1` and `karatzuba_add2`, word by word.
use bike_modify.Base.{ℕ, ◌+◌, ◌-◌, ◌*◌, ◌<◌, ◌≡◌, refl, ap, ap₂, ◌∙◌, arith}
use bike_modify.Base.{
  List, length, get_or, set, replicate, length-replicate, for_range_inv, fill, fill_inside,
  length-fill,
}
use bike_modify.Base.{
  length-set, get_or-set_self, get_or-set_ne, eq_or_ne, inl, inr, ltb, if◌then◌else◌, bit_xor,
}
use bike_modify.Gf2x.{karatzuba_add1, karatzuba_add2}

-- A loop that writes all words of a local array, from arrays that it does not change.
fresh : (f : ℕ → ℕ) (n i : ℕ) → i < n → get_or (fill n 0 (λ j r. f j) (replicate n 0)) i 0 ≡ f i
fresh f n i h =
    fill_inside 0 (λ j r. f j) (λ k xs ys e. refl) n 0 (replicate n 0) i (omega arith) (omega arith)
      (rw (length-replicate {A = ℕ} n 0) h)

length-fresh : (f : ℕ → ℕ) (n : ℕ) → length (fill n 0 (λ j r. f j) (replicate n 0)) ≡ n
length-fresh f n = length-fill 0 _ n 0 (replicate n 0) ∙ length-replicate {A = ℕ} n 0

module _ (res a b : List ℕ) (m : ℕ) where
  pub alah_lem :
      (i : ℕ)
      → i < m
      → get_or (karatzuba_add1 res a b m).0 i 0 ≡ bit_xor (get_or a i 0) (get_or a (m + i) 0)
  unfolding karatzuba_add1
  alah_lem = fresh (λ j. bit_xor (get_or a j 0) (get_or a (m + j) 0)) m

  pub blbh_lem :
      (i : ℕ)
      → i < m
      → get_or (karatzuba_add1 res a b m).1 i 0 ≡ bit_xor (get_or b i 0) (get_or b (m + i) 0)
  unfolding karatzuba_add1
  blbh_lem = fresh (λ j. bit_xor (get_or b j 0) (get_or b (m + j) 0)) m

  pub tmp_lem :
      (i : ℕ)
      → i < m
      → get_or (karatzuba_add1 res a b m).2 i 0
        ≡ bit_xor (get_or res (m + i) 0) (get_or res (2 * m + i) 0)
  unfolding karatzuba_add1
  tmp_lem = fresh (λ j. bit_xor (get_or res (m + j) 0) (get_or res (2 * m + j) 0)) m

  pub length-karatzuba_add1 :
      (length (karatzuba_add1 res a b m).0 ≡ m)
      × (length (karatzuba_add1 res a b m).1 ≡ m)
      × (length (karatzuba_add1 res a b m).2 ≡ m)
  unfolding karatzuba_add1
  length-karatzuba_add1 = (length-fresh _ m, length-fresh _ m, length-fresh _ m)

module _ (res tmp : List ℕ) (m : ℕ) (size : length res ≡ 4 * m) where
  -- The word `i` when the loop has done the rounds below `j`.
  done : ℕ → ℕ → ℕ
  done j i =
      if ltb i m
      then get_or res i 0
      else if ltb i (m + j)
      then bit_xor (get_or res i 0) (bit_xor (get_or res (i - m) 0) (get_or tmp (i - m) 0))
      else if ltb i (2 * m)
      then get_or res i 0
      else if ltb i (2 * m + j)
      then bit_xor (get_or res i 0) (bit_xor (get_or res (i + m) 0) (get_or tmp (i - 2 * m) 0))
      else get_or res i 0

  record Inv (j : ℕ) (r : List ℕ) : Type 0 where
    len : length r ≡ 4 * m
    words : (i : ℕ) → get_or r i 0 ≡ done j i

  round : ℕ → List ℕ → List ℕ
  round j r =
      let r1 =
        set r (m + j) (bit_xor (get_or r (m + j) 0) (bit_xor (get_or r j 0) (get_or tmp j 0))) in
      set r1 (2 * m + j)
        (bit_xor (get_or r1 (2 * m + j) 0) (bit_xor (get_or r1 (3 * m + j) 0) (get_or tmp j 0)))

  round-Inv : (j : ℕ) (r : List ℕ) → j < m → Inv j r → Inv (j + 1) (round j r)
  unfolding round done
  round-Inv j r h s =
      let v1 = bit_xor (get_or r (m + j) 0) (bit_xor (get_or r j 0) (get_or tmp j 0)) in
      let r1 = set r (m + j) v1 in
      let len1 : length r1 ≡ 4 * m = length-set r (m + j) v1 ∙ s.len in
      let v2 =
        bit_xor (get_or r1 (2 * m + j) 0) (bit_xor (get_or r1 (3 * m + j) 0) (get_or tmp j 0)) in
      let at_res : (p q : ℕ) → p ≡ q → get_or res p 0 ≡ get_or res q 0 =
        λ p q e. ap (λ t. get_or res t 0) e in
      let at_tmp : (p q : ℕ) → p ≡ q → get_or tmp p 0 ≡ get_or tmp q 0 =
        λ p q e. ap (λ t. get_or tmp t 0) e in
      let word0 : get_or r j 0 ≡ get_or res (m + j - m) 0 =
        s.words j ∙ ground (arith, at_res j (m + j - m) (omega arith)) in
      let word1 : get_or r (m + j) 0 ≡ get_or res (m + j) 0 = s.words (m + j) ∙ ground arith in
      let word2 : get_or r1 (2 * m + j) 0 ≡ get_or res (2 * m + j) 0 =
        get_or-set_ne r (m + j) (2 * m + j) v1 0 (omega arith)
        ∙ s.words (2 * m + j)
        ∙ ground arith in
      let word3 : get_or r1 (3 * m + j) 0 ≡ get_or res (2 * m + j + m) 0 =
        get_or-set_ne r (m + j) (3 * m + j) v1 0 (omega arith)
        ∙ s.words (3 * m + j)
        ∙ ground (arith, at_res (3 * m + j) (2 * m + j + m) (omega arith)) in
      record {
        len = length-set r1 (2 * m + j) v2 ∙ len1;
        words = λ i. elim (eq_or_ne (2 * m + j) i) [
          | inl e ↦ rw (← e) (
              get_or-set_self r1 (2 * m + j) v2 0 (omega (arith, len1))
              ∙ ap₂ bit_xor word2 (ap₂ bit_xor word3 (at_tmp j (2 * m + j - 2 * m) (omega arith)))
              ∙ ground arith)
          | inr ne ↦ get_or-set_ne r1 (2 * m + j) i v2 0 ne ∙ elim (eq_or_ne (m + j) i) [
            | inl e ↦ rw (← e) (
                get_or-set_self r (m + j) v1 0 (omega (arith, s.len))
                ∙ ap₂ bit_xor word1 (ap₂ bit_xor word0 (at_tmp j (m + j - m) (omega arith)))
                ∙ ground arith)
            | inr ne' ↦ get_or-set_ne r (m + j) i v1 0 ne' ∙ s.words i ∙ ground (arith, ne, ne')
          ]
        ];
      }

  all_rounds : Inv m (karatzuba_add2 res tmp m)
  unfolding karatzuba_add2 round done
  all_rounds =
      for_range_inv Inv round m 0 m res (λ j r p q s. round-Inv j r q s) (omega arith)
        record { len = size; words = λ i. ground arith }

  pub length-karatzuba_add2 : length (karatzuba_add2 res tmp m) ≡ 4 * m
  length-karatzuba_add2 = all_rounds.len

  pub karatzuba_add2_first :
      (i : ℕ) → i < m → get_or (karatzuba_add2 res tmp m) i 0 ≡ get_or res i 0
  unfolding done
  karatzuba_add2_first i h = all_rounds.words i ∙ ground arith

  pub karatzuba_add2_second :
      (i : ℕ)
      → i < m
      → get_or (karatzuba_add2 res tmp m) (m + i) 0
        ≡ bit_xor (get_or res (m + i) 0) (bit_xor (get_or res i 0) (get_or tmp i 0))
  unfolding done
  karatzuba_add2_second i h =
      let back : m + i - m ≡ i = omega arith in all_rounds.words (m + i) ∙ rw back (ground arith)

  pub karatzuba_add2_third :
      (i : ℕ)
      → i < m
      → get_or (karatzuba_add2 res tmp m) (2 * m + i) 0
        ≡ bit_xor (get_or res (2 * m + i) 0) (bit_xor (get_or res (3 * m + i) 0) (get_or tmp i 0))
  unfolding done
  karatzuba_add2_third i h =
      let back : 2 * m + i - 2 * m ≡ i = omega arith in
      let up : 2 * m + i + m ≡ 3 * m + i = omega arith in
      all_rounds.words (2 * m + i) ∙ rw (back, up) (ground arith)

  pub karatzuba_add2_last :
      (i : ℕ) → i < m → get_or (karatzuba_add2 res tmp m) (3 * m + i) 0 ≡ get_or res (3 * m + i) 0
  unfolding done
  karatzuba_add2_last i h = all_rounds.words (3 * m + i) ∙ ground arith
