-- ===== src/Equations/Rows.antt =====
-- What `and_index` stores in a row.
use bike_modify.Base.{
  ℕ, suc, ◌+◌, ◌-◌, ◌*◌, ◌/◌, ◌%◌, ◌^◌, ◌≤◌, ◌<◌, ◌≡◌, refl, sym, ap, ap₂, subst, ◌∙◌, arith,
}
use bike_modify.Base.{
  List, length, get_or, set, length-set, get_or-set_self, get_or-set_ne, for_range, for_range_inv,
  for_range_cong, bit_and, Bool, true, ◌&&◌, ◌==◌, if◌then◌else◌, to_nat, eq_or_ne, inl, inr,
  Bool-cases, ==_iff,
}
use bike_modify.Bits.{bit, bit-and, bit_cong}
use bike_modify.Word.{shl, bit_and-zero}
use bike_modify.Bytes.{byte_bit}
use bike_modify.Utilities.Weight.{ones}
use bike_modify.Equations.{Row, note_digit, note_byte, and_index}
use bike_modify.Equations.Location.{location_lem, ones_mono, ones-lt}

-- The row after the digits below `p`: how many there are, and the place of each.
record IsRow (f : ℕ → Bool) (base size p : ℕ) (row : Row) : Type 0 where
  len : length row.res ≡ size
  count : row.count ≡ ones f p
  entries : (q : ℕ) → q < p → f q ≡ true → get_or row.res (base + ones f q) 0 ≡ q

module _ (f : ℕ → Bool) (base size : ℕ) where
  note_digit-IsRow :
      (i tmp index : ℕ) (row : Row)
      → index < 8
      → f (8 * i + index) ≡ bit tmp index
      → 8 * i + index < 2 ^ 16
      → ones f (8 * i + index) < 255
      → base + ones f (8 * i + index) < size
      → IsRow f base size (8 * i + index) row
      → IsRow f base size (8 * i + (index + 1)) (note_digit base i tmp index row)
  unfolding note_digit
  note_digit-IsRow i tmp index row h same small few room s =
      let p = 8 * i + index in
      let next : 8 * i + (index + 1) ≡ suc p = omega arith in
      rw (next, location_lem tmp index h)
        elim (Bool-cases (bit tmp index)) [
          | inl t ↦ rw t record {
            len = length-set row.res (base + row.count) _ ∙ s.len;
            count = omega (arith, s.count, ap to_nat (same ∙ t));
            entries = λ q k m. elim (eq_or_ne p q) [
              | inl e ↦
                  ap (λ t. get_or (set row.res (base + row.count) ((i * 8 + index) % 2 ^ 16)) t 0)
                    {x = base + ones f q} {y = base + row.count}
                    (ap (λ t. base + ones f t) (sym e) ∙ ap (λ t. base + t) (sym s.count))
                  ∙ get_or-set_self row.res (base + row.count) _ 0
                      (omega (arith, s.count, s.len, room))
                  ∙ omega (arith, e, small)
              | inr ne ↦
                  get_or-set_ne row.res (base + row.count) (base + ones f q) _ 0
                    (omega (arith, s.count, ones-lt f q p (omega (arith, ne)) m))
                  ∙ s.entries q (omega (arith, ne)) m
            ];
          }
          | inr z ↦ rw z record {
            len = s.len;
            count = omega (arith, s.count, ap to_nat (same ∙ z));
            entries = λ q k m. s.entries q (ground (arith, same, z, m, k, ap f {x = p} {y = q})) m;
          }
        ]

  note_byte-IsRow :
      (a b : List ℕ) (i : ℕ) (row : Row)
      → ((p : ℕ) → f p ≡ (byte_bit a p && byte_bit b p))
      → 8 * (i + 1) ≤ 2 ^ 16
      → ones f (8 * (i + 1)) < 255
      → base + ones f (8 * (i + 1)) < size
      → IsRow f base size (8 * i) row
      → IsRow f base size (8 * (i + 1)) (note_byte base a b i row)
  unfolding note_byte
  note_byte-IsRow a b i row same small few room s =
      let tmp = bit_and (get_or a i 0) (get_or b i 0) in
      let all = for_range 8 0 (note_digit base i tmp) row in
      let start : IsRow f base size (8 * i + 0) row =
        subst (λ p. IsRow f base size p row) (omega arith) s in
      let whole : IsRow f base size (8 * i + 8) all =
        for_range_inv (λ index r. IsRow f base size (8 * i + index) r) (note_digit base i tmp) 8 0 8
          row
          (λ index r p q t.
            note_digit-IsRow i tmp index r q (digit index q) (omega arith)
              (omega (arith, ones_mono f (8 * i + index) (8 * (i + 1)) (omega arith)))
              (omega (arith, ones_mono f (8 * i + index) (8 * (i + 1)) (omega arith))) t)
          (omega arith) start in
      let kept : (if tmp == 0 then row else all) ≡ all = elim (eq_or_ne tmp 0) [
        | inl e ↦ rw ((==_iff tmp 0).1 e) (skip row tmp e)
        | inr ne ↦ ground (arith, ne)
      ] in
      rw kept (subst (λ p. IsRow f base size p all) (omega arith) whole)
    where
      at :
          (x : List ℕ) (index : ℕ)
          → index < 8
          → bit (get_or x ((8 * i + index) / 8) 0) ((8 * i + index) % 8) ≡ bit (get_or x i 0) index
      at x index h =
          bit_cong {i = (8 * i + index) % 8} {j = index}
            (ap (λ t. get_or x t 0) {x = (8 * i + index) / 8} {y = i} (omega arith)) (omega arith)

      digit :
          (index : ℕ)
          → index < 8
          → f (8 * i + index) ≡ bit (bit_and (get_or a i 0) (get_or b i 0)) index
      digit index h =
          same (8 * i + index)
          ∙ unfold byte_bit in
            (ap₂ ◌&&◌ (at a index h) (at b index h)
              ∙ sym (bit-and index (get_or a i 0) (get_or b i 0)))

      idle : (row : Row) (tmp index : ℕ) → tmp ≡ 0 → note_digit base i tmp index row ≡ row
      idle row tmp index e = unfold note_digit in rw (e, bit_and-zero (shl 8 1 index)) refl

      skip : (row : Row) (tmp : ℕ) → tmp ≡ 0 → row ≡ for_range 8 0 (note_digit base i tmp) row
      skip row tmp e =
          for_range_inv (λ index r. row ≡ r) (note_digit base i tmp) 8 0 8 row
            (λ index r p q t. t ∙ sym (idle r tmp index e)) (omega arith) refl

  -- The rows that the last part leaves: what was stored stays.
  record IsKept (p index : ℕ) (row : Row) : Type 0 where
    entries : (q : ℕ) → q < p → f q ≡ true → get_or row.res (base + ones f q) 0 ≡ q
    least : ones f p ≤ row.count
    most : row.count ≤ ones f p + index

  note_digit-IsKept :
      (p i tmp index : ℕ) (row : Row)
      → ones f p + index < 255
      → IsKept p index row
      → IsKept p (index + 1) (note_digit base i tmp index row)
  unfolding note_digit
  note_digit-IsKept p i tmp index row few s = elim (Bool-cases (bit_and (shl 8 1 index) tmp == 0)) [
    | inl t ↦ rw t record { entries = s.entries; least = s.least; most = omega (arith, s.most) }
    | inr z ↦ rw z record {
      entries = λ q k m.
          get_or-set_ne row.res (base + row.count) (base + ones f q) _ 0
            (omega (arith, s.least, ones-lt f q p k m))
          ∙ s.entries q k m;
      least = omega (arith, s.least, s.most);
      most = omega (arith, s.least, s.most);
    }
  ]

-- The digits that both arrays have.
abbrev pub common : List ℕ → List ℕ → ℕ → Bool
common a b p = byte_bit a p && byte_bit b p

-- Byte `bytelen - 1` of the first array is not read.
and_index-skips :
    (base : ℕ) (res a b : List ℕ) (bytelen a_past b_past x : ℕ)
    → and_index base res (set a (bytelen - 1) x) b bytelen a_past b_past
      ≡ and_index base res a b bytelen a_past b_past
unfolding and_index note_byte
and_index-skips base res a b n a_past b_past x =
    ap (for_range 3 0 (note_digit base n (bit_and (bit_and a_past b_past) 7))) (
      for_range_cong (note_byte base (set a (n - 1) x) b) (note_byte base a b) (n - 1) 0 _
        (λ i row p h.
          ap
            (λ t.
              let tmp = bit_and t (get_or b i 0) in
              let all = for_range 8 0 (note_digit base i tmp) row in if tmp == 0 then row else all)
            (get_or-set_ne a (n - 1) i x 0 (omega arith))))

-- `and_index` stores each common digit `q` of the first `bytelen - 1` bytes in its row, in the place that
-- the number of the common digits before it says, if there are fewer than 250 of them and the array has
-- room; but it does not depend on byte `bytelen - 1` of the first array, whose digits it leaves out.
pub and_index_lem :
    (base : ℕ) (res a b : List ℕ) (bytelen a_past b_past q : ℕ)
    → 8 * bytelen ≤ 2 ^ 16
    → ones (common a b) (8 * (bytelen - 1)) < 250
    → base + ones (common a b) (8 * (bytelen - 1)) < length res
    → q < 8 * (bytelen - 1)
    → common a b q ≡ true
    → (get_or (and_index base res a b bytelen a_past b_past).res (base + ones (common a b) q) 0 ≡ q)
      × ((x : ℕ)
          → and_index base res (set a (bytelen - 1) x) b bytelen a_past b_past
            ≡ and_index base res a b bytelen a_past b_past)
unfolding and_index
and_index_lem base res a b n a_past b_past q small few room h t =
    let f = common a b in
    let tail = bit_and (bit_and a_past b_past) 7 in
    let row = for_range (n - 1) 0 (note_byte base a b) (record { res = res; count = 0 }) in
    let whole : IsRow f base (length res) (8 * (n - 1)) row =
      for_range_inv (λ i r. IsRow f base (length res) (8 * i) r) (note_byte base a b) (n - 1) 0
        (n - 1) _
        (λ i r p k s.
          note_byte-IsRow f base (length res) a b i r (λ p. refl) (omega arith)
            (omega (arith, ones_mono f (8 * (i + 1)) (8 * (n - 1)) (omega arith)))
            (omega (arith, ones_mono f (8 * (i + 1)) (8 * (n - 1)) (omega arith))) s)
        (omega arith)
        (record { len = refl; count = refl; entries = λ q k m. absurd (omega arith) }) in
    let end : IsKept f base (length res) (8 * (n - 1)) 3
        (for_range 3 0 (note_digit base n tail) row) =
      for_range_inv (IsKept f base (length res) (8 * (n - 1))) (note_digit base n tail) 3 0 3 row
        (λ i r p k s.
          note_digit-IsKept f base (length res) (8 * (n - 1)) n tail i r (omega arith) s)
        (omega arith)
        (record {
          entries = whole.entries;
          least = omega (arith, whole.count);
          most = omega (arith, whole.count);
        }) in
    (end.entries q h t, λ x. and_index-skips base res a b n a_past b_past x)
