-- ===== src/Duplicate/Syndrome.antt =====
-- `dup` makes the array of a syndrome periodic: digit `p` is digit `p % R_BITS` of the syndrome.
use native.Mathlib.Nat.{mod-eq_of_lt, mod-eq-sub-mod}
use mathlib.Core.WellFounded
use bike_modify.Base.{ℕ, ◌+◌, ◌-◌, ◌*◌, ◌/◌, ◌%◌, ◌≤◌, ◌<◌, ◌≡◌, sym, ap, ap₂, ◌∙◌}
use bike_modify.Base.{arith, List, get_or, length, length-set}
use bike_modify.Base.{
  bit_and, bit_or, if◌then◌else◌, ltb, lt_or_le, lt→ltb, le→ltb, inl, inr, lt_wf,
}
use bike_modify.Base.{for_range_inv, eq_or_ne, ◌&&◌, ◌||◌}
use bike_modify.Bits.{bit, bit-or, bit-and}
use bike_modify.Word.{IsWords, shl, bit-shl, bit-ones, bit_at, bit_at_cong, bit_at_word, funnel_at}
use bike_modify.Word.{bit_at-set_ne, bit_at-set_self}
use bike_modify.Word.{set-IsWords, bit_or-lt, bit_and-lt, shl-lt, div-pow-lt}
use bike_modify.Params.{
  Level, r_bits, r_qw, last_r_qw_lead, last_r_qw_trail, last_r_qw_mask, layout,
}
use bike_modify.Duplicate.{dup, copy_word, close_last_word}

module _ (l : Level) where
  -- What holds when the words below `R_QW + i` are done.
  record IsCopied (s : List ℕ) (i : ℕ) (t : List ℕ) : Type 0 where
    same_length : length t ≡ length s
    words : IsWords 64 t
    start : (p : ℕ) → p < r_bits l → bit_at t p ≡ bit_at s p
    period : (p : ℕ) → r_bits l ≤ p → p < 64 * (r_qw l + i) → bit_at t p ≡ bit_at t (p - r_bits l)

  -- The last word of the syndrome is filled up with its first digits.
  closed_word :
      (s : List ℕ) (b : ℕ)
      → b < 64
      → bit
          (bit_or
            (shl 64 (get_or s 0 0) (last_r_qw_lead l))
            (bit_and (get_or s (r_qw l - 1) 0) (last_r_qw_mask l)))
          b
        ≡ (if ltb b (last_r_qw_lead l)
            then bit_at s (64 * (r_qw l - 1) + b)
            else bit_at s (b - last_r_qw_lead l))
  unfolding last_r_qw_mask
  closed_word s b h =
      bit-or b _ _
      ∙ ap₂ ◌||◌ (bit-shl 64 (get_or s 0 0) (last_r_qw_lead l) b h) (
          bit-and b (get_or s (r_qw l - 1) 0) _
          ∙ ap (λ t. bit (get_or s (r_qw l - 1) 0) b && t) (bit-ones (last_r_qw_lead l) b))
      ∙ ground (
        arith,
        bit_at_word s (r_qw l - 1) b h,
        bit_at_word s 0 (b - last_r_qw_lead l) (omega arith),
      )

  close_last_word-IsCopied :
      (s : List ℕ) → length s ≡ 3 * r_qw l → IsWords 64 s → IsCopied s 0 (close_last_word l s)
  unfolding close_last_word
  close_last_word-IsCopied s e w =
      let y = layout l in
      let last = r_qw l - 1 in
      record {
        same_length = length-set s last _;
        words = set-IsWords 64 s last _ w (
            bit_or-lt 64 _ _ (shl-lt 64 (get_or s 0 0) (last_r_qw_lead l))
              (bit_and-lt 64 (get_or s last 0) (last_r_qw_mask l) (w last)));
        start = λ p h. elim (eq_or_ne (p / 64) last) [
          | inl q ↦
              bit_at-set_self s last _ p q (omega arith)
              ∙ closed_word s (p % 64) (omega arith)
              ∙ rw (lt→ltb (p % 64) (last_r_qw_lead l) (omega arith)) (bit_at_cong s (omega arith))
          | inr ne ↦ bit_at-set_ne s last _ p ne
        ];
        period = λ p h k.
            bit_at-set_self s last _ p (omega arith) (omega arith)
            ∙ closed_word s (p % 64) (omega arith)
            ∙ rw (le→ltb (p % 64) (last_r_qw_lead l) (omega arith)) (bit_at_cong s (omega arith))
            ∙ sym (bit_at-set_ne s last _ (p - r_bits l) (omega arith));
      }

  copy_word-IsCopied :
      (s : List ℕ) (i : ℕ) (t : List ℕ)
      → length s ≡ 3 * r_qw l
      → i < 2 * r_qw l - 1
      → IsCopied s i t
      → IsCopied s (i + 1) (copy_word l i t)
  unfolding copy_word
  copy_word-IsCopied s i t e h c =
      let y = layout l in
      let to = r_qw l + i in
      record {
        same_length = length-set t to _ ∙ c.same_length;
        words = set-IsWords 64 t to _ c.words (
            bit_or-lt 64 _ _ (div-pow-lt 64 (get_or t i 0) (last_r_qw_trail l) (c.words i))
              (shl-lt 64 (get_or t (i + 1) 0) (last_r_qw_lead l)));
        start = λ p k. bit_at-set_ne t to _ p (omega arith) ∙ c.start p k;
        period = λ p k m. elim (eq_or_ne (p / 64) to) [
          | inl q ↦
              bit_at-set_self t to _ p q (rw c.same_length (omega arith))
              ∙ funnel_at t i (last_r_qw_trail l) (last_r_qw_lead l) (p % 64) y.trail (omega arith)
                  (c.words i)
              ∙ bit_at_cong t (omega arith)
              ∙ sym (bit_at-set_ne t to _ (p - r_bits l) (omega arith))
          | inr ne ↦
              bit_at-set_ne t to _ p ne
              ∙ c.period p k (omega arith)
              ∙ sym (bit_at-set_ne t to _ (p - r_bits l) (omega arith))
        ];
      }

  dup-IsCopied :
      (s : List ℕ) → length s ≡ 3 * r_qw l → IsWords 64 s → IsCopied s (2 * r_qw l - 1) (dup l s)
  unfolding dup
  dup-IsCopied s e w =
      for_range_inv (IsCopied s) (copy_word l) (2 * r_qw l - 1) 0 (2 * r_qw l - 1)
        (close_last_word l s) (λ i t p q c. copy_word-IsCopied s i t e q c) (omega arith)
        (close_last_word-IsCopied s e w)

  -- Digits that repeat with a period are those of the first period.
  periodic :
      (t : List ℕ) (m : ℕ)
      → ((p : ℕ) → r_bits l ≤ p → p < m → bit_at t p ≡ bit_at t (p - r_bits l))
      → (p : ℕ) → p < m
      → bit_at t p ≡ bit_at t (p % r_bits l)
  periodic t m h p =
      WellFounded.induction lt_wf {C = λ p. p < m → bit_at t p ≡ bit_at t (p % r_bits l)} p
        λ p ih k. elim (lt_or_le p (r_bits l)) [
          | inl q ↦ bit_at_cong t (sym (mod-eq_of_lt {n = p} {m = r_bits l} q))
          | inr q ↦
              h p q k
              ∙ ih (p - r_bits l) (omega (arith, layout l)) (omega arith)
              ∙ bit_at_cong t (sym (mod-eq-sub-mod {n = p} {m = r_bits l} q))
        ]

  -- `dup` on the array of a syndrome (`3 * R_QW` words): digit `p` of the result is digit
  -- `p % R_BITS` of the syndrome, for every digit but those of the last word, and the result is an
  -- array of words of the same length.
  pub dup_lem :
      (s : List ℕ)
      → length s ≡ 3 * r_qw l
      → IsWords 64 s
      → (length (dup l s) ≡ 3 * r_qw l)
        × IsWords 64 (dup l s)
        × ((p : ℕ) → p < 64 * (3 * r_qw l - 1) → bit_at (dup l s) p ≡ bit_at s (p % r_bits l))
  dup_lem s e w =
      let c = dup-IsCopied s e w in
      (
        c.same_length ∙ e,
        c.words,
        λ p h.
            periodic (dup l s) (64 * (3 * r_qw l - 1))
              (λ q k m. c.period q k (omega (arith, layout l))) p h
            ∙ c.start (p % r_bits l) (omega (arith, layout l)),
      )
