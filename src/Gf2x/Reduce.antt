-- ===== src/Gf2x/Reduce.antt =====
-- `red` reduces a product modulo `x^R_BITS - 1`.
use bike_modify.Base.{
  ℕ, ◌+◌, ◌-◌, ◌/◌, ◌%◌, ◌*◌, ◌≤◌, ◌<◌, ◌≡◌, refl, ap, ap₂, ◌∙◌, arith, List, length, get_or, set,
}
use bike_modify.Base.{
  fill_inside, fill_outside, length-fill, length-set, get_or-set_self, get_or-set_ne, eq_or_ne, inl,
  inr,
}
use bike_modify.Base.{false, xor, bit_xor, bit_or, bit_and, lt_or_le}
use bike_modify.Bits.{bit, bit-xor, bit-and, bit-zero}
use bike_modify.Word.{bit_at, bit_at_cong, IsWords, funnel_at, ◌>>>◌, shl, bit-ones}
use bike_modify.Params.{
  Level, r_bits, r_qw, last_r_qw_lead, last_r_qw_trail, last_r_qw_mask, layout,
}
use bike_modify.Gf2x.{fold_words, red}

module _ (l : Level) (a : List ℕ) (size : 2 * r_qw l ≤ length a) (words : IsWords 64 a) where
  -- The loop adds to each digit the one `R_BITS` further on.
  fold_words_lem :
      (p : ℕ)
      → p < 64 * r_qw l
      → bit_at (fold_words l a) p ≡ xor (bit_at a p) (bit_at a (p + r_bits l))
  unfolding fold_words
  fold_words_lem p h =
      let i = p / 64 in
      let from = r_qw l + i - 1 in
      unfold bit_at in
      ap (λ t. bit t (p % 64))
        (fill_inside 0 _
          (λ k xs ys e. ap₂ bit_xor (e k (omega arith)) (
            ap₂ bit_or
              (ap (λ t. t >>> last_r_qw_lead l) (e (r_qw l + k - 1) (omega (arith, layout l))))
              (ap (λ t. shl 64 t (last_r_qw_trail l)) (e (r_qw l + k) (omega arith)))))
          (r_qw l) 0 a i (omega arith) (omega arith) (omega arith))
      ∙ bit-xor (p % 64) _ _
      ∙ ap (xor (bit (get_or a i 0) (p % 64))) (
          ap
            (λ t.
              bit
                (bit_or (get_or a from 0 >>> last_r_qw_lead l)
                  (shl 64 (get_or a t 0) (last_r_qw_trail l)))
                (p % 64))
            {x = r_qw l + i} {y = from + 1} (omega (arith, layout l))
          ∙ funnel_at a from (last_r_qw_lead l) (last_r_qw_trail l) (p % 64)
              (omega (arith, layout l)) (omega arith) (words from)
          ∙ bit_at_cong a {p = 64 * from + p % 64 + last_r_qw_lead l} {q = p + r_bits l}
              (omega (arith, layout l)))

  length-fold_words : length (fold_words l a) ≡ length a
  unfolding fold_words
  length-fold_words = length-fill 0 _ (r_qw l) 0 a

  -- The mask of the last word keeps the digits below `R_BITS` …
  masked_keeps :
      (p : ℕ)
      → p < r_bits l
      → bit_at
          (set
            (fold_words l a)
            (r_qw l - 1)
            (bit_and (get_or (fold_words l a) (r_qw l - 1) 0) (last_r_qw_mask l)))
          p
        ≡ bit_at (fold_words l a) p
  unfolding last_r_qw_mask bit_at
  masked_keeps p h =
      let b = fold_words l a in
      elim (eq_or_ne (r_qw l - 1) (p / 64)) [
        | inl e ↦ rw (← e) (
            ap (λ t. bit t (p % 64))
              (get_or-set_self b (r_qw l - 1) _ 0
                (omega (arith, layout l, length-fold_words, size)))
            ∙ bit-and (p % 64) _ _
            ∙ ground (arith, bit-ones (last_r_qw_lead l) (p % 64), layout l))
        | inr ne ↦ ap (λ t. bit t (p % 64)) (get_or-set_ne b (r_qw l - 1) (p / 64) _ 0 ne)
      ]

  -- … and clears the rest of it.
  masked_clears :
      (p : ℕ)
      → r_bits l ≤ p
      → p < 64 * r_qw l
      → bit_at
          (set
            (fold_words l a)
            (r_qw l - 1)
            (bit_and (get_or (fold_words l a) (r_qw l - 1) 0) (last_r_qw_mask l)))
          p
        ≡ false
  unfolding last_r_qw_mask bit_at
  masked_clears p h k =
      let b = fold_words l a in
      let e : p / 64 ≡ r_qw l - 1 = omega (arith, layout l) in
      rw e (
        ap (λ t. bit t (p % 64))
          (get_or-set_self b (r_qw l - 1) _ 0 (omega (arith, layout l, length-fold_words, size)))
        ∙ bit-and (p % 64) _ _
        ∙ ground (arith, bit-ones (last_r_qw_lead l) (p % 64), layout l))

  -- On a product of words, in at least `2 * R_QW` of them, `red` is the reduction modulo
  -- `x^R_BITS - 1`: digit `p` of the result is the sum of the digits `p` and `p + R_BITS`, and the
  -- digits from `R_BITS` to the end of the `2 * R_QW` words are 0.
  pub red_lem :
      (p : ℕ)
      → (p < r_bits l → bit_at (red l a) p ≡ xor (bit_at a p) (bit_at a (p + r_bits l)))
        × (r_bits l ≤ p → p < 64 * (2 * r_qw l) → bit_at (red l a) p ≡ false)
  unfolding red
  red_lem p = (
    λ h.
        unfold bit_at in
        ap (λ t. bit t (p % 64))
          (fill_outside 0 _ (r_qw l) (r_qw l) _ (p / 64) (inl (omega (arith, layout l))))
        ∙ masked_keeps p h
        ∙ fold_words_lem p (omega (arith, layout l)),
    λ h k. elim (lt_or_le p (64 * r_qw l)) [
      | inl q ↦
          unfold bit_at in
          ap (λ t. bit t (p % 64))
            (fill_outside 0 _ (r_qw l) (r_qw l) _ (p / 64) (inl (omega arith)))
          ∙ masked_clears p h q
      | inr q ↦
          unfold bit_at in
          ap (λ t. bit t (p % 64))
            (fill_inside 0 (λ i b. 0) (λ j xs ys e. refl) (r_qw l) (r_qw l) _ (p / 64) (omega arith)
              (omega arith)
              (rw (length-set (fold_words l a) (r_qw l - 1) _, length-fold_words)
                (omega (arith, size))))
          ∙ bit-zero (p % 64)
    ],
  )
