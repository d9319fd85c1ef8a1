-- ===== src/Kem/Split.antt =====
-- `split_e` cuts a vector of `N_BITS` digits into two polynomials.
use bike_modify.Base.{ℕ, ◌+◌, ◌-◌, ◌*◌, ◌/◌, ◌%◌, ◌^◌, ◌≤◌, ◌<◌, ◌≡◌, sym, ap, ◌∙◌, arith}
use bike_modify.Base.{
  List, length, get_or, set, take, length-take, get_or-take, get_or_past, length-set,
  get_or-set_self, get_or-set_ne, for_range, bit_and, bit_or, eq_or_ne, lt_or_le, ◌⊎◌, inl, inr,
}
use bike_modify.Base.{Bool, ◌||◌, lt→ltb, le→ltb}
use bike_modify.Bits.{bit, bit_cong, bit-div-pow, bit-or}
use bike_modify.Word.{IsWords, ◌>>>◌, shl, shl-lt, bit-funnel, bit_or-lt, div-pow-lt}
use bike_modify.Bytes.{byte_bit}
use bike_modify.Params.{
  Level, level1, level3, level5, r_bits, r_size, n_size, last_r_byte_lead, last_r_byte_trail,
  last_r_byte_mask, layout,
}
use bike_modify.FindErr.{Pair, mask_last_byte}
use bike_modify.FindErr.Flip.{mask_last_byte_keeps}
use bike_modify.Decode.Polynomial.{IsPoly, masked-IsPoly}
use bike_modify.Decode.Syndrome.{ArePolys}
use bike_modify.Kem.Written.{Written, written}
use bike_modify.Kem.{low_part, high_part, split_e}

-- How `N_SIZE` bytes fall into two times `R_SIZE`: all of them, or all but the last.
halves :
    (l : Level)
    → ((n_size l ≡ 2 * r_size l) × (last_r_byte_trail l < last_r_byte_lead l))
      ⊎ ((n_size l + 1 ≡ 2 * r_size l) × (last_r_byte_lead l ≤ last_r_byte_trail l))
unfolding n_size r_size last_r_byte_trail last_r_byte_lead
halves level1 = inr (omega arith, omega arith)
halves level3 = inl (omega arith, omega arith)
halves level5 = inl (omega arith, omega arith)

module _ (l : Level) where
  module _ (e : List ℕ) (words : IsWords 8 e) where
    low_part_lem :
        length e ≡ n_size l
        → IsPoly l (low_part l e)
          × ((p : ℕ) → p < r_bits l → byte_bit (low_part l e) p ≡ byte_bit e p)
    unfolding low_part
    low_part_lem len =
        let raw = take (r_size l) e in
        let size : length raw ≡ r_size l = omega (arith, length-take (r_size l) e, len, room) in
        let small : IsWords 8 raw = λ i. elim (lt_or_le i (r_size l)) [
          | inl h ↦ rw (get_or-take (r_size l) e i 0 h) (words i)
          | inr g ↦ rw (get_or_past raw i 0 (omega (arith, size))) (omega arith)
        ] in
        (
          poly raw size small,
          λ p h.
              kept raw p size h
              ∙ unfold byte_bit in
                ap (λ t. bit t (p % 8))
                  (get_or-take (r_size l) e (p / 8) 0 (omega (arith, layout l))),
        )
      where
        room : r_size l ≤ n_size l
        room = elim (halves l) [
          | inl h ↦ omega (arith, h.0, layout l)
          | inr h ↦ omega (arith, h.0, layout l)
        ]

        poly :
            (raw : List ℕ)
            → length raw ≡ r_size l
            → IsWords 8 raw
            → IsPoly l (
                set raw (r_size l - 1) (bit_and (get_or raw (r_size l - 1) 0) (last_r_byte_mask l)))
        poly raw s w = unfold mask_last_byte in masked-IsPoly l raw s w

        kept :
            (raw : List ℕ) (p : ℕ)
            → length raw ≡ r_size l
            → p < r_bits l
            → byte_bit
                (set raw
                  (r_size l - 1)
                  (bit_and (get_or raw (r_size l - 1) 0) (last_r_byte_mask l)))
                p
              ≡ byte_bit raw p
        kept raw p s h = unfold mask_last_byte in mask_last_byte_keeps l raw p h s

    -- The byte `i` of the loop over the second part, and the last byte of the corner case.
    byte_at : ℕ → ℕ
    byte_at i =
        bit_or (shl 8 (get_or e i 0) (last_r_byte_trail l))
          (get_or e (i - 1) 0 >>> last_r_byte_lead l)

    byte_at-lt : (i : ℕ) → byte_at i < 2 ^ 8
    unfolding byte_at
    byte_at-lt i =
        bit_or-lt 8 _ _ (shl-lt 8 (get_or e i 0) (last_r_byte_trail l))
          (div-pow-lt 8 (get_or e (i - 1) 0) (last_r_byte_lead l) (words (i - 1)))

    digit_of : (i b p : ℕ) → b < 8 → 8 * i + b ≡ p → bit (get_or e i 0) b ≡ byte_bit e p
    digit_of i b p h q =
        unfold byte_bit in
        bit_cong {i = b} {j = p % 8} (ap (λ t. get_or e t 0) {x = i} {y = p / 8} (omega arith))
          (omega arith)

    byte_at_lem : (p : ℕ) → bit (byte_at (r_size l + p / 8)) (p % 8) ≡ byte_bit e (r_bits l + p)
    unfolding byte_at
    byte_at_lem p =
        let i = r_size l + p / 8 in
        or_comm _ _
        ∙ bit-funnel 8 (last_r_byte_lead l) (last_r_byte_trail l) (get_or e (i - 1) 0)
            (get_or e i 0) (p % 8) (omega (arith, layout l)) (omega arith) (words (i - 1))
        ∙ elim (lt_or_le (p % 8 + last_r_byte_lead l) 8) [
          | inl h ↦ rw (lt→ltb (p % 8 + last_r_byte_lead l) 8 h) (
              digit_of (i - 1) (p % 8 + last_r_byte_lead l) (r_bits l + p) h
                (omega (arith, layout l)))
          | inr g ↦ rw (le→ltb (p % 8 + last_r_byte_lead l) 8 g) (
              digit_of i (p % 8 + last_r_byte_lead l - 8) (r_bits l + p) (omega (arith, layout l))
                (omega (arith, layout l)))
        ]
      where
        swap : (a b : Bool) → (a || b) ≡ (b || a)
        swap a b = ground arith

        or_comm : (x y : ℕ) → bit (bit_or x y) (p % 8) ≡ bit (bit_or y x) (p % 8)
        or_comm x y =
            bit-or (p % 8) x y ∙ swap (bit x (p % 8)) (bit y (p % 8)) ∙ sym (bit-or (p % 8) y x)

    corner_lem :
        (p : ℕ)
        → n_size l + 1 ≡ 2 * r_size l
        → p / 8 ≡ r_size l - 1
        → p % 8 + last_r_byte_lead l < 8
        → bit (get_or e (n_size l - 1) 0 >>> last_r_byte_lead l) (p % 8) ≡ byte_bit e (r_bits l + p)
    corner_lem p size last h =
        bit-div-pow (last_r_byte_lead l) (get_or e (n_size l - 1) 0) (p % 8)
        ∙ digit_of (n_size l - 1) (last_r_byte_lead l + p % 8) (r_bits l + p) (omega arith)
            (omega (arith, layout l))

    -- The bytes of the second part before the mask.
    record IsShifted (raw : List ℕ) : Type 0 where
      len : length raw ≡ r_size l
      small : IsWords 8 raw
      digits :
          (p : ℕ) → p < r_bits l → bit (get_or raw (p / 8) 0) (p % 8) ≡ byte_bit e (r_bits l + p)

    masked_lem :
        (raw : List ℕ)
        → IsShifted raw
        → IsPoly l (mask_last_byte l raw)
          × ((p : ℕ) → p < r_bits l → byte_bit (mask_last_byte l raw) p ≡ byte_bit e (r_bits l + p))
    masked_lem raw s = (
      masked-IsPoly l raw s.len s.small,
      λ p h. mask_last_byte_keeps l raw p h s.len ∙ unfold byte_bit in s.digits p h,
    )

    module _ (raw : List ℕ) (size : length raw ≡ r_size l) where
      shifted : List ℕ
      shifted =
          for_range (n_size l - r_size l) (r_size l) (λ i r. set r (i - r_size l) (byte_at i)) raw

      shifted-Written : Written byte_at (r_size l) raw (r_size l + (n_size l - r_size l)) shifted
      unfolding shifted
      shifted-Written = written byte_at (r_size l) raw (n_size l - r_size l)

      whole-IsShifted : n_size l ≡ 2 * r_size l → IsShifted shifted
      whole-IsShifted h =
          let w = shifted-Written in
          record {
            len = w.len ∙ size;
            small = λ i. elim (lt_or_le i (r_size l)) [
              | inl k ↦
                  rw (w.vals i (omega arith) (omega (arith, size))) (byte_at-lt (r_size l + i))
              | inr g ↦ rw (get_or_past shifted i 0 (omega (arith, w.len, size))) (omega arith)
            ];
            digits = λ p k.
                ap (λ t. bit t (p % 8))
                  (w.vals (p / 8) (omega (arith, layout l)) (omega (arith, layout l, size)))
                ∙ byte_at_lem p;
          }

      last_byte : ℕ
      last_byte = get_or e (n_size l - 1) 0 >>> last_r_byte_lead l

      closed-IsShifted :
          n_size l + 1 ≡ 2 * r_size l
          → last_r_byte_lead l ≤ last_r_byte_trail l
          → IsShifted (set shifted (r_size l - 1) last_byte)
      unfolding last_byte
      closed-IsShifted h narrow =
          let w = shifted-Written in
          let len : length (set shifted (r_size l - 1) last_byte) ≡ r_size l =
            length-set shifted (r_size l - 1) last_byte ∙ w.len ∙ size in
          let last-lt : last_byte < 2 ^ 8 =
            div-pow-lt 8 (get_or e (n_size l - 1) 0) (last_r_byte_lead l) (words (n_size l - 1)) in
          let last : get_or (set shifted (r_size l - 1) last_byte) (r_size l - 1) 0 ≡ last_byte =
            get_or-set_self shifted (r_size l - 1) last_byte 0
              (omega (arith, w.len, size, layout l)) in
          record {
            len = len;
            small = λ i. elim (eq_or_ne (r_size l - 1) i) [
              | inl q ↦ rw (← q, last) last-lt
              | inr ne ↦ elim (lt_or_le i (r_size l)) [
                | inl k ↦
                    rw
                      (
                        get_or-set_ne shifted (r_size l - 1) i last_byte 0 ne,
                        w.vals i (omega arith) (omega (arith, size)),
                      )
                      (byte_at-lt (r_size l + i))
                | inr g ↦
                    rw (get_or_past (set shifted (r_size l - 1) last_byte) i 0 (omega (arith, len)))
                      (omega arith)
              ]
            ];
            digits = λ p k. elim (eq_or_ne (r_size l - 1) (p / 8)) [
              | inl q ↦
                  ap (λ t. bit (get_or (set shifted (r_size l - 1) last_byte) t 0) (p % 8)) (sym q)
                  ∙ ap (λ t. bit t (p % 8)) last
                  ∙ corner_lem p h (sym q) (omega (arith, layout l))
              | inr ne ↦
                  ap (λ t. bit t (p % 8))
                    (get_or-set_ne shifted (r_size l - 1) (p / 8) last_byte 0 ne
                      ∙ w.vals (p / 8) (omega (arith, layout l)) (omega (arith, layout l, size)))
                  ∙ byte_at_lem p
            ];
          }

      high_part_lem :
          IsPoly l (high_part l raw e)
          × ((p : ℕ) → p < r_bits l → byte_bit (high_part l raw e) p ≡ byte_bit e (r_bits l + p))
      unfolding high_part shifted last_byte byte_at mask_last_byte
      high_part_lem = elim (halves l) [
        | inl h ↦
            rw (le→ltb (n_size l) (2 * r_size l) (omega (arith, h.0)))
              (masked_lem shifted (whole-IsShifted h.0))
        | inr h ↦
            rw (lt→ltb (n_size l) (2 * r_size l) (omega (arith, h.0)))
              (masked_lem (set shifted (r_size l - 1) last_byte) (closed-IsShifted h.0 h.1))
      ]

-- `split_e` on `N_SIZE` bytes: digit `p` of the first polynomial is digit `p` of the vector, digit `p`
-- of the second is digit `R_BITS + p`, and neither has a digit from `R_BITS` on. The second
-- polynomial's array has `R_SIZE` bytes before, and none of them matters.
pub split_e_lem :
    (l : Level) (splitted_e : Pair) (e : List ℕ)
    → length splitted_e.val1 ≡ r_size l
    → length e ≡ n_size l
    → IsWords 8 e
    → ArePolys l (split_e l splitted_e e)
      × ((p : ℕ)
          → p < r_bits l
          → (byte_bit (split_e l splitted_e e).val0 p ≡ byte_bit e p)
            × (byte_bit (split_e l splitted_e e).val1 p ≡ byte_bit e (r_bits l + p)))
unfolding split_e
split_e_lem l splitted_e e size len words =
    let low = low_part_lem l e words len in
    let high = high_part_lem l e words splitted_e.val1 size in
    (record { first = low.0; second = high.0 }, λ p h. (low.1 p h, high.1 p h))
