-- ===== src/Rotate/Big.antt =====
-- `rotr_big` moves whole words: by the binary digits of the count, from the highest down.
use native.Mathlib.Nat.{pow-suc, one-le-pow, pow-le-pow_right}
use bike_modify.Base.{ℕ, zero, suc, ◌+◌, ◌-◌, ◌*◌, ◌/◌, ◌^◌, ◌≤◌, ◌<◌, ◌≡◌, refl, ap, ap₂, ◌∙◌}
use bike_modify.Base.{arith, List, get_or, length, length-fill, fill_inside, fill_outside}
use bike_modify.Base.{
  bit_and, bit_or, if◌then◌else◌, ltb, ◌==◌, lt_or_le, lt→ltb, le→ltb, inl, inr, Bool-cases,
}
use bike_modify.Word.{
  IsWords, complement, sub_word, select_first, select_second, bit_and-ones, bit_and-zero,
}
use bike_modify.Params.{Level, r_qw, uptopow2, level1, level3, level5}
use bike_modify.Utilities.Compare.{secure_l32_mask_lem}
use bike_modify.Rotate.{mask64, move_words, rotr_big_from, rotr_big, r_qw_half_log2}

mask64_lem :
    (n idx : ℕ) → n < 2 ^ 32 → idx < 2 ^ 32 → mask64 n idx ≡ (if ltb n idx then 0 else 2 ^ 64 - 1)
unfolding mask64
mask64_lem n idx p q = ground (arith, secure_l32_mask_lem n idx p q)

module _ (l : Level) where
  -- One round moves the words by `idx` places if the count is that large.
  move_words_lem :
      (idx : ℕ) (qw : List ℕ) (n i : ℕ)
      → n < 2 ^ 32
      → idx < 2 ^ 32
      → IsWords 64 qw
      → i < r_qw l + idx
      → r_qw l + idx ≤ length qw
      → get_or (move_words l idx (mask64 n idx) qw) i 0
        ≡ get_or qw (if ltb n idx then i else i + idx) 0
  unfolding move_words
  move_words_lem idx qw n i p q w r s =
      fill_inside 0 _
        (λ k xs ys a.
          ap₂ bit_or (ap (λ t. bit_and t (complement 64 (mask64 n idx))) (a k (omega arith)))
            (ap (λ t. bit_and t (mask64 n idx)) (a (k + idx) (omega arith))))
        (r_qw l + idx) 0 qw i (omega arith) (omega arith) (omega arith)
      ∙ elim (lt_or_le n idx) [
        | inl h ↦
            rw (mask64_lem n idx p q, lt→ltb n idx h)
              (select_first 64 (get_or qw i 0) (get_or qw (i + idx) 0) (w i))
        | inr h ↦
            rw (mask64_lem n idx p q, le→ltb n idx h)
              (select_second 64 (get_or qw i 0) (get_or qw (i + idx) 0) (w (i + idx)))
      ]

  length-move_words : (idx m : ℕ) (qw : List ℕ) → length (move_words l idx m qw) ≡ length qw
  unfolding move_words
  length-move_words idx m qw = length-fill 0 _ (r_qw l + idx) 0 qw

  move_words-IsWords :
      (idx : ℕ) (qw : List ℕ) (n : ℕ)
      → n < 2 ^ 32
      → idx < 2 ^ 32
      → IsWords 64 qw
      → r_qw l + idx ≤ length qw
      → IsWords 64 (move_words l idx (mask64 n idx) qw)
  move_words-IsWords idx qw n p q w s i = elim (lt_or_le i (r_qw l + idx)) [
    | inl h ↦ rw (move_words_lem idx qw n i p q w h s) (w _)
    | inr h ↦
        unfold move_words in rw (fill_outside 0 _ (r_qw l + idx) 0 qw i (inr (omega arith))) (w i)
  ]

  length-rotr_big_from :
      (rounds idx n : ℕ) (qw : List ℕ) → length (rotr_big_from l rounds idx n qw) ≡ length qw
  unfolding rotr_big_from
  length-rotr_big_from zero idx n qw = refl
  length-rotr_big_from (suc rounds) idx n qw = ground (
    arith,
    length-rotr_big_from rounds (idx / 2) (sub_word 64 n (bit_and idx (mask64 n idx)))
        (move_words l idx (mask64 n idx) qw),
    length-move_words idx (mask64 n idx) qw,
  )

  -- The count that is left after a round.
  count_left :
      (n idx : ℕ)
      → n < 2 ^ 32
      → idx < 2 ^ 32
      → sub_word 64 n (bit_and idx (mask64 n idx)) ≡ (if ltb n idx then n else n - idx)
  count_left n idx p q = elim (lt_or_le n idx) [
    | inl h ↦ rw (mask64_lem n idx p q, lt→ltb n idx h, bit_and-zero idx) (omega arith)
    | inr h ↦
        rw (mask64_lem n idx p q, le→ltb n idx h, bit_and-ones 64 idx (omega arith)) (omega arith)
  ]

  rotr_big_from-IsWords :
      (rounds idx n : ℕ) (qw : List ℕ)
      → n < 2 ^ 32
      → idx < 2 ^ 32
      → IsWords 64 qw
      → r_qw l + idx ≤ length qw
      → IsWords 64 (rotr_big_from l rounds idx n qw)
  unfolding rotr_big_from
  rotr_big_from-IsWords zero idx n qw p q w s = w
  rotr_big_from-IsWords (suc rounds) idx n qw p q w s = elim (Bool-cases (idx == 0)) [
    | inl e ↦ rw e w
    | inr e ↦ rw e (
        rotr_big_from-IsWords rounds (idx / 2) (sub_word 64 n (bit_and idx (mask64 n idx)))
          (move_words l idx (mask64 n idx) qw) (rw (count_left n idx p q) (ground arith))
          (omega arith) (move_words-IsWords idx qw n p q w s)
          (rw (length-move_words idx (mask64 n idx) qw) (omega arith)))
  ]

  -- One round, at an `idx` that is not 0 yet.
  rotr_big_from-suc :
      (rounds idx n : ℕ) (qw : List ℕ)
      → 0 < idx
      → rotr_big_from l (suc rounds) idx n qw
        ≡ rotr_big_from l rounds
            (idx / 2)
            (sub_word 64 n (bit_and idx (mask64 n idx)))
            (move_words l idx (mask64 n idx) qw)
  unfolding rotr_big_from
  rotr_big_from-suc rounds idx n qw h = ground arith

  rotr_big_from-zero : (rounds n : ℕ) (qw : List ℕ) → rotr_big_from l rounds 0 n qw ≡ qw
  unfolding rotr_big_from
  rotr_big_from-zero zero n qw = refl
  rotr_big_from-zero (suc rounds) n qw = refl

  -- Word `i` of the result is word `i + n`, for every word that a later step reads.
  rotr_big_from_lem :
      (k rounds n i : ℕ) (qw : List ℕ)
      → k ≤ rounds
      → k ≤ 31
      → n < 2 ^ k
      → IsWords 64 qw
      → r_qw l + 2 ^ k ≤ length qw
      → i < r_qw l + 1
      → get_or (rotr_big_from l rounds (2 ^ k / 2) n qw) i 0 ≡ get_or qw (i + n) 0
  rotr_big_from_lem zero rounds n i qw r b p w s h =
      rw (rotr_big_from-zero rounds n qw) (ap (λ t. get_or qw t 0) (omega arith))
  rotr_big_from_lem (suc k) zero n i qw r b p w s h = absurd (omega arith)
  rotr_big_from_lem (suc k) (suc rounds) n i qw r b p w s h =
      let half : 2 ^ suc k / 2 ≡ 2 ^ k = omega (arith, pow-suc 2 k) in
      let pos : 1 ≤ 2 ^ k = one-le-pow k 2 (omega arith) in
      let small : 2 ^ k ≤ 2 ^ 31 =
        pow-le-pow_right {n = 2} (omega arith) {i = k} {j = 31} (omega arith) in
      let top : 2 ^ suc k ≡ 2 ^ k * 2 = pow-suc 2 k in
      let left = count_left n (2 ^ k) (omega arith) (omega arith) in
      let rest =
        rotr_big_from_lem k rounds (sub_word 64 n (bit_and (2 ^ k) (mask64 n (2 ^ k)))) i
          (move_words l (2 ^ k) (mask64 n (2 ^ k)) qw) (omega arith) (omega arith)
          (rw left (ground arith))
          (move_words-IsWords (2 ^ k) qw n (omega arith) (omega arith) w (omega arith))
          (rw (length-move_words (2 ^ k) (mask64 n (2 ^ k)) qw) (omega arith)) h in
      let j = i + sub_word 64 n (bit_and (2 ^ k) (mask64 n (2 ^ k))) in
      let in_reach : j < r_qw l + 2 ^ k = rw left (ground arith) in
      rw half (
        ap (λ t. get_or t i 0) (rotr_big_from-suc rounds (2 ^ k) n qw pos)
        ∙ rest
        ∙ move_words_lem (2 ^ k) qw n j (omega arith) (omega arith) w in_reach (omega arith)
        ∙ ap (λ t. get_or qw t 0) (rw left (ground arith)))

-- The first `idx` is `2 ^ (half_exp l - 1)`.
abbrev pub half_exp : Level → ℕ
half_exp level1 = 8
half_exp level3 = 9
half_exp level5 = 10

pub record IsHalf (l : Level) : Type 0 where
  pub start : r_qw_half_log2 l ≡ 2 ^ half_exp l / 2
  pub covers : r_qw l < 2 ^ half_exp l
  pub room : r_qw l + 2 ^ half_exp l < 3 * r_qw l
  pub few : half_exp l ≤ 11

pub half : (l : Level) → IsHalf l
unfolding r_qw_half_log2 r_qw uptopow2
half level1 = omega arith
half level3 = omega arith
half level5 = omega arith

-- `rotr_big` moves the words to the right by the count, for every word that `rotr_small` reads.
-- The array has the three copies of the syndrome, as `rotate_right`'s callers provide.
pub rotr_big_lem :
    (l : Level) (n i : ℕ) (qw : List ℕ)
    → n ≤ r_qw l
    → length qw ≡ 3 * r_qw l
    → IsWords 64 qw
    → i < r_qw l + 1
    → get_or (rotr_big l qw n) i 0 ≡ get_or qw (i + n) 0
unfolding rotr_big
rotr_big_lem l n i qw p e w h =
    let m = half l in
    ap (λ t. get_or (rotr_big_from l 11 t n qw) i 0) m.start
    ∙ rotr_big_from_lem l (half_exp l) 11 n i qw (omega arith) (omega arith) (omega arith) w
        (omega arith) h

pub length-rotr_big : (l : Level) (qw : List ℕ) (n : ℕ) → length (rotr_big l qw n) ≡ length qw
unfolding rotr_big
length-rotr_big l qw n = length-rotr_big_from l 11 (r_qw_half_log2 l) n qw

pub rotr_big-IsWords :
    (l : Level) (qw : List ℕ) (n : ℕ)
    → n ≤ r_qw l
    → length qw ≡ 3 * r_qw l
    → IsWords 64 qw
    → IsWords 64 (rotr_big l qw n)
unfolding rotr_big
rotr_big-IsWords l qw n p e w =
    rotr_big_from-IsWords l 11 (r_qw_half_log2 l) n qw (omega (arith, small l))
      (omega (arith, small l)) w (omega (arith, small l))
  where
    small :
        (k : Level)
        → (r_qw_half_log2 k < 1024) × (r_qw k < 1024) × (r_qw k + r_qw_half_log2 k ≤ 3 * r_qw k)
    small level1 = unfold r_qw_half_log2 r_qw uptopow2 in omega arith
    small level3 = unfold r_qw_half_log2 r_qw uptopow2 in omega arith
    small level5 = unfold r_qw_half_log2 r_qw uptopow2 in omega arith
