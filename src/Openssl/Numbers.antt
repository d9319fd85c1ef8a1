-- ===== src/Openssl/Numbers.antt =====
-- Numbers as arrays of bytes with the greatest digit first, and `reverse_endian`.
use bike_modify.Base.{
  ℕ, zero, suc, ◌+◌, ◌-◌, ◌*◌, ◌/◌, ◌%◌, ◌^◌, ◌≤◌, ◌<◌, ◌≡◌, refl, sym, ap, ◌∙◌, arith,
}
use bike_modify.Base.{
  List, length, get_or, set, length-set, get_or-set_self, get_or-set_ne, for_range, for_range_inv,
}
use bike_modify.Base.{
  ◌==◌, ltb, leb, ◌&&◌, ◌||◌, if◌then◌else◌, eq_or_ne, lt_or_le, inl, inr, true, false, Bool-cases,
  ==_iff,
}
use bike_modify.Bits.{bit, bit_cong, bit-mod-pow, bit-div-pow}
use bike_modify.Word.{IsWords, pow_byte}
use bike_modify.Openssl.{reverse_endian}

-- The number that the first `n` bytes hold, the first byte the greatest.
unfoldable pub be_value : List ℕ → ℕ → ℕ
be_value bytes zero = 0
be_value bytes (suc n) = be_value bytes n * 2 ^ 8 + get_or bytes n 0

-- The digits of a number and a byte behind it.
bit-append_byte :
    (x b p : ℕ) → b < 2 ^ 8 → bit (x * 2 ^ 8 + b) p ≡ (if ltb p 8 then bit b p else bit x (p - 8))
bit-append_byte x b p h = elim (lt_or_le p 8) [
  | inl l ↦ ground (
    arith,
    bit-mod-pow 8 (x * 2 ^ 8 + b) p,
    ap (λ t. bit t p) {x = (x * 2 ^ 8 + b) % 2 ^ 8} {y = b} (omega arith),
  )
  | inr g ↦ ground (
    arith,
    bit-div-pow 8 (x * 2 ^ 8 + b) (p - 8),
    bit_cong {x = x * 2 ^ 8 + b} {y = x * 2 ^ 8 + b} {i = 8 + (p - 8)} {j = p} refl (omega arith),
    ap (λ t. bit t (p - 8)) {x = (x * 2 ^ 8 + b) / 2 ^ 8} {y = x} (omega arith),
  )
]

pub bit-be_value :
    (bytes : List ℕ) (n p : ℕ)
    → IsWords 8 bytes
    → p < 8 * n
    → bit (be_value bytes n) p ≡ bit (get_or bytes (n - 1 - p / 8) 0) (p % 8)
unfolding be_value
bit-be_value bytes zero p w h = absurd (omega arith)
bit-be_value bytes (suc n) p w h =
    bit-append_byte (be_value bytes n) (get_or bytes n 0) p (w n) ∙ elim (lt_or_le p 8) [
      | inl l ↦ ground (
        arith,
        bit_cong {i = p} {j = p % 8}
            (ap (λ t. get_or bytes t 0) {x = n} {y = suc n - 1 - p / 8} (omega arith))
            (omega arith),
      )
      | inr g ↦ ground (
        arith,
        bit-be_value bytes n (p - 8) w (omega arith),
        bit_cong {i = (p - 8) % 8} {j = p % 8}
            (ap (λ t. get_or bytes t 0) {x = n - 1 - (p - 8) / 8} {y = suc n - 1 - p / 8}
              (omega arith))
            (omega arith),
      )
    ]

pub be_value-lt : (bytes : List ℕ) (n : ℕ) → IsWords 8 bytes → be_value bytes n < 2 ^ (8 * n)
unfolding be_value
be_value-lt bytes zero w = omega arith
be_value-lt bytes (suc n) w = omega (arith, pow_byte n, be_value-lt bytes n w, w n)

-- `reverse_endian` writes byte `n - 1 - j` of the source at place `j`, for each of the `n` places,
-- whether their number is odd or even, and keeps the places behind.
pub reverse_endian_lem :
    (res source : List ℕ) (n j : ℕ)
    → n ≤ length res
    → (length (reverse_endian res source n) ≡ length res)
      × (get_or (reverse_endian res source n) j 0
          ≡ (if ltb j n then get_or source (n - 1 - j) 0 else get_or res j 0))
unfolding reverse_endian
reverse_endian_lem res source n j room =
    let rounds =
      for_range_inv IsSwapped step (n / 2) 0 (n / 2) res swap (omega arith)
        (refl, λ i. ground (arith)) in
    let swapped = for_range (n / 2) 0 step res in
    let v = get_or source (n / 2) 0 in
    elim (Bool-cases (n % 2 == 1)) [
      | inl odd ↦ rw odd (
        length-set _ (n / 2) _ ∙ rounds.0,
        elim (eq_or_ne (n / 2) j) [
          | inl e ↦
              ap (λ t. get_or (set swapped (n / 2) v) t 0) (sym e)
              ∙ get_or-set_self swapped (n / 2) v 0 (omega (arith, rounds.0, middle odd e))
              ∙ ground (
                arith,
                ap (λ t. get_or source t 0) {x = n / 2} {y = n - 1 - j}
                    (omega (arith, middle odd e)),
                middle odd e,
              )
          | inr ne ↦
              get_or-set_ne _ (n / 2) j _ 0 ne
              ∙ rounds.1 j
              ∙ ground (arith, ne, (==_iff (n % 2) 1).0 odd)
        ],
      )
      | inr even ↦ rw even (rounds.0, rounds.1 j ∙ ground (arith, even_half even))
    ]
  where
    step : ℕ → List ℕ → List ℕ
    step i r = set (set r i (get_or source (n - 1 - i) 0)) (n - 1 - i) (get_or source i 0)

    middle : (n % 2 == 1) ≡ true → n / 2 ≡ j → (n ≡ 2 * j + 1)
    middle odd e = ground arith

    even_half : (n % 2 == 1) ≡ false → n / 2 + n / 2 ≡ n
    even_half even = ground arith

    two_writes :
        (t : List ℕ) (a b x y i : ℕ)
        → a < b
        → b < length t
        → get_or (set (set t a x) b y) i 0
          ≡ (if i == b then y else if i == a then x else get_or t i 0)
    two_writes t a b x y i h k = elim (eq_or_ne b i) [
      | inl e ↦
          ap (λ j. get_or (set (set t a x) b y) j 0) (sym e)
          ∙ get_or-set_self (set t a x) b y 0 (omega (arith, length-set t a x))
          ∙ ground (arith, e)
      | inr ne ↦ get_or-set_ne (set t a x) b i y 0 ne ∙ elim (eq_or_ne a i) [
        | inl e ↦
            ap (λ j. get_or (set t a x) j 0) (sym e)
            ∙ get_or-set_self t a x 0 (omega arith)
            ∙ ground (arith, e, ne)
        | inr other ↦ get_or-set_ne t a i x 0 other ∙ ground (arith, ne, other)
      ]
    ]

    IsSwapped : ℕ → List ℕ → Type 0
    IsSwapped k t =
        (length t ≡ length res)
        × ((i : ℕ)
            → get_or t i 0 ≡ (
                if ltb i k || (ltb i n && leb (n - k) i)
                then get_or source (n - 1 - i) 0
                else get_or res i 0))

    swap :
        (k : ℕ) (t : List ℕ)
        → 0 ≤ k
        → k < n / 2
        → IsSwapped k t
        → IsSwapped
            (k + 1)
            (set (set t k (get_or source (n - 1 - k) 0)) (n - 1 - k) (get_or source k 0))
    swap k t p q inv = (
      length-set _ (n - 1 - k) _ ∙ length-set t k _ ∙ inv.0,
      λ i.
          two_writes t k (n - 1 - k) (get_or source (n - 1 - k) 0) (get_or source k 0) i
            (omega arith) (omega (arith, inv.0))
          ∙ ground (
            arith,
            inv.1 i,
            ap (λ t. get_or source t 0) {x = k} {y = n - 1 - i},
            ap (λ t. get_or source t 0) {x = n - 1 - k} {y = n - 1 - i},
          ),
    )
