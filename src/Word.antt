-- ===== src/Word.antt =====
-- Machine words of C as numbers: shifts, complements, wrapping subtraction, and arrays of words
-- read as one string of bits. Digit `p` of an array of 64-bit words is digit `p % 64` of word
-- `p / 64`, which is the byte order of the platforms the code supports.
use native.Mathlib.Numerals.{towards_suc}
use mathlib.Core.WellFounded
use mathlib.Core.Bool.{or-false}
use native.Mathlib.Nat.{pow-suc, pow-le-pow_right, one-le-pow, mod-lt, div-add-mod', div-le_self}
use bike_modify.Base.{ℕ, zero, suc, ◌+◌, ◌-◌, ◌*◌, ◌/◌, ◌%◌, ◌^◌, ◌≤◌, ◌<◌}
use bike_modify.Base.{
  bit_and, bit_or, bit_xor, ◌≡◌, ◌≢◌, ◌↔◌, refl, sym, ap, ap₂, ◌∙◌, arith, List, get_or, set,
}
use bike_modify.Base.{Bool, ◌==◌, false, ◌&&◌, ◌||◌, xor, ltb, if◌then◌else◌}
use bike_modify.Base.{
  length, length-set, get_or-set_self, get_or-set_ne, get_or_past, lt_or_le, lt→ltb, le→ltb,
  eq_or_ne, lt_wf, inl, inr,
}
use bike_modify.Bits.{
  bit, bit-zero, bit-and, bit-or, bit-xor, bit-div-pow, bit-mul-pow, bit-mod-pow,
}
use bike_modify.Bits.{bit-complement, bit_ext, bit-lt-pow, bit_cong}

infixl 75 ◌>>>◌
abbrev pub ◌>>>◌ : ℕ → ℕ → ℕ
x >>> k = x / 2 ^ k

-- `x << k` in `w` bits, for `k < w`.
abbrev pub shl : ℕ → ℕ → ℕ → ℕ
shl w x k = x * 2 ^ k % 2 ^ w

-- `~x` in `w` bits.
abbrev pub complement : ℕ → ℕ → ℕ
complement w x = 2 ^ w - 1 - x

-- `a - b` in `w` bits.
abbrev pub sub_word : ℕ → ℕ → ℕ → ℕ
sub_word w a b = (a + 2 ^ w - b) % 2 ^ w

-- `MASK(len)`
abbrev pub mask : ℕ → ℕ
mask len = 2 ^ len - 1

pub bit-ones : (w i : ℕ) → bit (2 ^ w - 1) i ≡ ltb i w
bit-ones w i =
    bit_cong {x = 2 ^ w - 1} {y = 2 ^ w - 1 - 0} {i = i} {j = i} (omega arith) refl
    ∙ bit-complement w 0 i (one-le-pow w 2 (omega arith))
    ∙ ground (arith, bit-zero i)

zero_of_bits : (x : ℕ) → ((i : ℕ) → bit x i ≡ false) → x ≡ 0
zero_of_bits x =
    WellFounded.induction lt_wf {C = λ n. ((i : ℕ) → bit n i ≡ false) → n ≡ 0} x
      (λ n ih h. step n ih h)
  where
    step :
        (n : ℕ)
        → ((m : ℕ) → m < n → ((i : ℕ) → bit m i ≡ false) → m ≡ 0)
        → ((i : ℕ) → bit n i ≡ false)
        → n ≡ 0
    step zero ih h = refl
    step (suc n) ih h =
        unfold bit in ground (arith, h 0, ih (suc n / 2) (omega arith) (λ i. h (suc i)))

-- A number with no digit from `w` on is below `2 ^ w`.
pub lt_of_bits : (w x : ℕ) → ((i : ℕ) → w ≤ i → bit x i ≡ false) → x < 2 ^ w
lt_of_bits w x h =
    let high : x / 2 ^ w ≡ 0 =
      zero_of_bits (x / 2 ^ w) (λ i. bit-div-pow w x i ∙ h (w + i) (omega arith)) in
    omega (
      arith,
      div-add-mod' x (2 ^ w),
      ap (λ (t : ℕ). t * 2 ^ w) high,
      mod-lt x {m = 2 ^ w} (one-le-pow w 2 (omega arith)),
    )

module _ (w a b : ℕ) (p : a < 2 ^ w) (q : b < 2 ^ w) where
  pub bit_or-lt : bit_or a b < 2 ^ w
  bit_or-lt =
      lt_of_bits w (bit_or a b)
        (λ i l. bit-or i a b ∙ ap₂ ◌||◌ (bit-lt-pow w a p i l) (bit-lt-pow w b q i l))

  pub bit_xor-lt : bit_xor a b < 2 ^ w
  unfolding xor
  bit_xor-lt =
      lt_of_bits w (bit_xor a b)
        (λ i l. bit-xor i a b ∙ ap₂ xor (bit-lt-pow w a p i l) (bit-lt-pow w b q i l))

pub bit_and-lt : (w a b : ℕ) → a < 2 ^ w → bit_and a b < 2 ^ w
bit_and-lt w a b p =
    lt_of_bits w (bit_and a b)
      (λ i l. bit-and i a b ∙ ap (λ t. t && bit b i) (bit-lt-pow w a p i l))

pub complement-lt : (w x : ℕ) → complement w x < 2 ^ w
complement-lt w x = omega (arith, one-le-pow w 2 (omega arith))

pub div-pow-lt : (w x k : ℕ) → x < 2 ^ w → x >>> k < 2 ^ w
div-pow-lt w x k h = omega (arith, div-le_self x (2 ^ k))

pub shl-lt : (w x k : ℕ) → shl w x k < 2 ^ w
shl-lt w x k = mod-lt (x * 2 ^ k) {m = 2 ^ w} (one-le-pow w 2 (omega arith))

pub bit-shl : (w x k i : ℕ) → i < w → bit (shl w x k) i ≡ (if ltb i k then false else bit x (i - k))
bit-shl w x k i h = bit-mod-pow w (x * 2 ^ k) i ∙ ground (arith, bit-mul-pow k x i)

-- `(x >> k) | (y << (w - k))`: the digits of `y` follow on those of `x`, from digit `k` of `x`.
pub bit-funnel :
    (w k m x y i : ℕ)
    → k + m ≡ w
    → i < w
    → x < 2 ^ w
    → bit (bit_or (x >>> k) (shl w y m)) i
      ≡ (if ltb (i + k) w then bit x (i + k) else bit y (i + k - w))
bit-funnel w k m x y i e h hx =
    bit-or i (x >>> k) (shl w y m)
    ∙ ap₂ ◌||◌
        (bit-div-pow k x i ∙ bit_cong {x = x} {y = x} {i = k + i} {j = i + k} refl (omega arith))
        (bit-shl w y m i h)
    ∙ elim (lt_or_le (i + k) w) [
      | inl l ↦ rw (lt→ltb (i + k) w l, lt→ltb i m (omega arith)) (or-false (bit x (i + k)))
      | inr g ↦
          rw (le→ltb (i + k) w g, le→ltb i m (omega arith), bit-lt-pow w x hx (i + k) g)
            (bit_cong {x = y} {y = y} {i = i - m} {j = i + k - w} refl (omega arith))
    ]

-- `(a & ~0) | (b & 0)` and `(a & ~m) | (b & m)` at a full mask `m`: a choice without a branch.
pub select_first : (w a b : ℕ) → a < 2 ^ w → bit_or (bit_and a (complement w 0)) (bit_and b 0) ≡ a
select_first w a b h =
    bit_ext w _ a
      (bit_or-lt w _ _ (bit_and-lt w a _ h)
        (lt_of_bits w (bit_and b 0) (λ i l. bit-and i b 0 ∙ ground (arith, bit-zero i))))
      h
      λ i l.
        bit-or i _ _
        ∙ ap₂ ◌||◌ (bit-and i a (complement w 0)) (bit-and i b 0)
        ∙ ground (arith, bit-zero i, bit-complement w 0 i (one-le-pow w 2 (omega arith)))

pub select_second :
    (w a b : ℕ)
    → b < 2 ^ w
    → bit_or (bit_and a (complement w (2 ^ w - 1))) (bit_and b (2 ^ w - 1)) ≡ b
select_second w a b h =
    ap (λ (t : ℕ). bit_or (bit_and a t) (bit_and b (2 ^ w - 1))) {x = complement w (2 ^ w - 1)}
      {y = 0} (omega arith)
    ∙ bit_ext w _ b
        (bit_or-lt w _ _
          (lt_of_bits w (bit_and a 0) (λ i l. bit-and i a 0 ∙ ground (arith, bit-zero i)))
          (bit_and-lt w b _ h))
        h
        λ i l.
          bit-or i _ _
          ∙ ap₂ ◌||◌ (bit-and i a 0) (bit-and i b (2 ^ w - 1))
          ∙ ground (arith, bit-zero i, bit-ones w i)

pub bit_and-ones : (w x : ℕ) → x < 2 ^ w → bit_and x (2 ^ w - 1) ≡ x
bit_and-ones w x h =
    bit_ext w _ x (bit_and-lt w x _ h) h
      (λ i l. bit-and i x (2 ^ w - 1) ∙ ground (arith, bit-ones w i))

pub bit_and-zero : (x : ℕ) → bit_and x 0 ≡ 0
bit_and-zero x = zero_of_bits _ (λ i. bit-and i x 0 ∙ ground (arith, bit-zero i))

lt-two-pow : (n : ℕ) → n < 2 ^ n
lt-two-pow zero = omega arith
lt-two-pow (suc n) = omega (arith, lt-two-pow n, pow-suc 2 n)

pub bit_or-zero : (x : ℕ) → bit_or x 0 ≡ x
bit_or-zero x =
    bit_ext x _ x (bit_or-lt x x 0 (lt-two-pow x) (one-le-pow x 2 (omega arith))) (lt-two-pow x)
      (λ i l. bit-or i x 0 ∙ ground (arith, bit-zero i))

pub bit_or-zero-first : (x : ℕ) → bit_or 0 x ≡ x
bit_or-zero-first x =
    bit_ext x _ x (bit_or-lt x 0 x (one-le-pow x 2 (omega arith)) (lt-two-pow x)) (lt-two-pow x)
      (λ i l. bit-or i 0 x ∙ ground (arith, bit-zero i))

xor-false : (a b : Bool) → xor a b ≡ false → a ≡ b
unfolding xor
xor-false a b h = ground arith

xor_self : (b : Bool) → xor b b ≡ false
unfolding xor
xor_self b = ground arith

-- `|` and `^` are 0 only where they have to be.
pub bit_or-eq-zero_iff : (x y : ℕ) → (bit_or x y ≡ 0) ↔ ((x ≡ 0) × (y ≡ 0))
bit_or-eq-zero_iff x y = (there, λ h. rw (h.0, h.1))
  where
    digits : bit_or x y ≡ 0 → (i : ℕ) → (bit x i || bit y i) ≡ false
    digits e i = sym (bit-or i x y) ∙ ap (λ t. bit t i) e ∙ bit-zero i

    there : bit_or x y ≡ 0 → (x ≡ 0) × (y ≡ 0)
    there e = (
      zero_of_bits x (λ i. ground (arith, digits e i)),
      zero_of_bits y (λ i. ground (arith, digits e i)),
    )

pub bit_xor-eq-zero_iff : (x y : ℕ) → (bit_xor x y ≡ 0) ↔ (x ≡ y)
bit_xor-eq-zero_iff x y = (there, back)
  where
    big : (n : ℕ) → n ≤ x + y → n < 2 ^ (x + y)
    big n h =
        let more = pow-le-pow_right {n = 2} (omega arith) {i = n} {j = x + y} h in
        omega (arith, lt-two-pow n, more)

    there : bit_xor x y ≡ 0 → x ≡ y
    there e = bit_ext (x + y) x y (big x (omega arith)) (big y (omega arith)) (λ i l.
        xor-false (bit x i) (bit y i) (sym (bit-xor i x y) ∙ ap (λ t. bit t i) e ∙ bit-zero i))

    back : x ≡ y → bit_xor x y ≡ 0
    back e = rw e (zero_of_bits _ (λ i. bit-xor i y y ∙ xor_self (bit y i)))

-- A mask of `w` low digits leaves the remainder by `2 ^ w`.
pub bit_and-mask : (w x : ℕ) → bit_and x (2 ^ w - 1) ≡ x % 2 ^ w
bit_and-mask w x =
    bit_ext w _ _ (lt_of_bits w _ (λ i l. bit-and i x (2 ^ w - 1) ∙ ground (arith, bit-ones w i)))
      (mod-lt x {m = 2 ^ w} (one-le-pow w 2 (omega arith)))
      (λ i l. bit-and i x (2 ^ w - 1) ∙ ground (arith, bit-ones w i, bit-mod-pow w x i))

-- `0 - (val & 1)` has the lowest digit of `val` in every place.
pub bit-lsb_mask : (val i : ℕ) → i < 64 → bit (sub_word 64 0 (bit_and val 1)) i ≡ (val % 2 == 1)
bit-lsb_mask val i h = ground (arith, bit_and-mask 1 val, bit-zero i, bit-ones 64 i)

pub lsb_mask-lt : (val : ℕ) → sub_word 64 0 (bit_and val 1) < 2 ^ 64
lsb_mask-lt val = omega arith

-- Every word of the array fits `w` bits.
abbrev pub IsWords : ℕ → List ℕ → Type 0
IsWords w xs = (i : ℕ) → get_or xs i 0 < 2 ^ w

pub set-IsWords :
    (w : ℕ) (xs : List ℕ) (i v : ℕ) → IsWords w xs → v < 2 ^ w → IsWords w (set xs i v)
set-IsWords w xs i v h hv j = elim (eq_or_ne i j) [
  | inl e ↦ elim (lt_or_le j (length xs)) [
    | inl l ↦ rw (e, get_or-set_self xs j v 0 l) hv
    | inr g ↦
        rw (get_or_past (set xs i v) j 0 (rw (length-set xs i v) g)) (one-le-pow w 2 (omega arith))
  ]
  | inr ne ↦ rw (get_or-set_ne xs i j v 0 ne) (h j)
]

-- Digit `p` of an array of 64-bit words.
unfoldable pub bit_at : List ℕ → ℕ → Bool
bit_at xs p = bit (get_or xs (p / 64) 0) (p % 64)

pub bit_at_cong : (xs : List ℕ) {p q : ℕ} → p ≡ q → bit_at xs p ≡ bit_at xs q
bit_at_cong xs e = ap (bit_at xs) e

-- Digit `b` of word `i`.
pub bit_at_word : (xs : List ℕ) (i b : ℕ) → b < 64 → bit_at xs (64 * i + b) ≡ bit (get_or xs i 0) b
unfolding bit_at
bit_at_word xs i b h =
    bit_cong {i = (64 * i + b) % 64} {j = b}
      (ap (λ t. get_or xs t 0) {x = (64 * i + b) / 64} {y = i} (omega arith)) (omega arith)

-- Two neighbouring words, funnelled: the digits from digit `k` of word `i` on.
pub funnel_at :
    (xs : List ℕ) (i k m b : ℕ)
    → k + m ≡ 64
    → b < 64
    → get_or xs i 0 < 2 ^ 64
    → bit (bit_or (get_or xs i 0 >>> k) (shl 64 (get_or xs (i + 1) 0) m)) b
      ≡ bit_at xs (64 * i + b + k)
funnel_at xs i k m b e h w =
    bit-funnel 64 k m (get_or xs i 0) (get_or xs (i + 1) 0) b e h w ∙ elim (lt_or_le (b + k) 64) [
      | inl l ↦
          rw (lt→ltb (b + k) 64 l) (sym (bit_at_word xs i (b + k) l) ∙ bit_at_cong xs (omega arith))
      | inr g ↦
          rw (le→ltb (b + k) 64 g)
            (sym (bit_at_word xs (i + 1) (b + k - 64) (omega arith)) ∙ bit_at_cong xs (omega arith))
    ]

-- An array after a write, digit by digit.
pub bit_at-set_ne : (xs : List ℕ) (i v p : ℕ) → p / 64 ≢ i → bit_at (set xs i v) p ≡ bit_at xs p
unfolding bit_at
bit_at-set_ne xs i v p ne =
    ap (λ t. bit t (p % 64)) (get_or-set_ne xs i (p / 64) v 0 (λ e. ne (sym e)))

pub bit_at-set_self :
    (xs : List ℕ) (i v p : ℕ) → p / 64 ≡ i → i < length xs → bit_at (set xs i v) p ≡ bit v (p % 64)
unfolding bit_at
bit_at-set_self xs i v p e h = rw e (ap (λ t. bit t (p % 64)) (get_or-set_self xs i v 0 h))

-- One byte more.
pub pow_byte : (n : ℕ) → 2 ^ (8 * suc n) ≡ 256 * 2 ^ (8 * n)
pow_byte n = ap (λ t. 2 ^ t) {x = 8 * suc n} {y = 8 * n + 8} (omega arith) ∙ shift (8 * n)
  where
    shift : (k : ℕ) → 2 ^ (k + 8) ≡ 256 * 2 ^ k
    shift k = simp towards_suc (omega arith)
