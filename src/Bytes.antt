-- ===== src/Bytes.antt =====
-- Arrays of bytes, and the bytes of an array of 64-bit words: the casts between `uint8_t *` and
-- `uint64_t *`, `memcpy` and `memset` across them, on a little-endian machine.
use bike_modify.Base.{ℕ, ◌+◌, ◌-◌, ◌*◌, ◌/◌, ◌%◌, ◌^◌, ◌≤◌, ◌<◌, ◌≡◌, refl, ap, ap₂, ◌∙◌, arith}
use bike_modify.Base.{
  List, get_or, set, length, length-set, for_range, for_range_inv, bit_and, bit_or,
}
use bike_modify.Base.{Bool, false, not, ◌&&◌, ◌||◌, ltb, ◌==◌, if◌then◌else◌}
use bike_modify.Base.{eq_or_ne, inl, inr}
use bike_modify.Bits.{
  bit, bit-zero, bit_cong, bit-and, bit-or, bit-mod-pow, bit-div-pow, bit-complement, bit-lt-pow,
}
use bike_modify.Word.{
  complement, shl, shl-lt, bit-shl, bit-ones, bit_at, bit_at-set_ne, bit_at-set_self, IsWords,
}
use bike_modify.Word.{set-IsWords, bit_or-lt, bit_and-lt}

-- Digit `p` of an array of bytes.
unfoldable pub byte_bit : List ℕ → ℕ → Bool
byte_bit raw p = bit (get_or raw (p / 8) 0) (p % 8)

-- `((uint8_t *)qw)[j]`
unfoldable pub byte_of : List ℕ → ℕ → ℕ
byte_of qw j = get_or qw (j / 8) 0 / 2 ^ (8 * (j % 8)) % 2 ^ 8

-- `((uint8_t *)qw)[j] = v`
unfoldable pub set_byte : List ℕ → ℕ → ℕ → List ℕ
set_byte qw j v = set qw (j / 8) (
    bit_or (bit_and (get_or qw (j / 8) 0) (complement 64 (shl 64 255 (8 * (j % 8)))))
      (shl 64 v (8 * (j % 8))))

-- `memset((uint8_t *)qw, v, n)` and `memcpy((uint8_t *)qw, raw, n)`
unfoldable pub memset : List ℕ → ℕ → ℕ → List ℕ
memset qw v n = for_range n 0 (λ j ws. set_byte ws j v) qw

unfoldable pub memcpy : List ℕ → List ℕ → ℕ → List ℕ
memcpy qw raw n = for_range n 0 (λ j ws. set_byte ws j (get_or raw j 0)) qw

pub bit-byte_of : (qw : List ℕ) (j b : ℕ) → b < 8 → bit (byte_of qw j) b ≡ bit_at qw (8 * j + b)
unfolding byte_of bit_at
bit-byte_of qw j b h =
    bit-mod-pow 8 _ b
    ∙ ground (
      arith,
      bit-div-pow (8 * (j % 8)) (get_or qw (j / 8) 0) b
          ∙ bit_cong {i = 8 * (j % 8) + b} {j = (8 * j + b) % 64}
              (ap (λ t. get_or qw t 0) {x = j / 8} {y = (8 * j + b) / 64} (omega arith))
              (omega arith),
    )

pub byte_of-lt : (qw : List ℕ) (j : ℕ) → byte_of qw j < 2 ^ 8
unfolding byte_of
byte_of-lt qw j = omega arith

-- The word after the write of byte `k`.
put_byte_bit :
    (x v k i : ℕ)
    → k < 8
    → i < 64
    → v < 2 ^ 8
    → bit (bit_or (bit_and x (complement 64 (shl 64 255 (8 * k)))) (shl 64 v (8 * k))) i
      ≡ (if i / 8 == k then bit v (i % 8) else bit x i)
put_byte_bit x v k i h hi hv =
    bit-or i _ _
    ∙ ap₂ ◌||◌
        (bit-and i x _
          ∙ ap (λ t. bit x i && t)
              (bit-complement 64 (shl 64 255 (8 * k)) i (shl-lt 64 255 (8 * k))
                ∙ ap (λ t. ltb i 64 && not t) (bit-shl 64 255 (8 * k) i hi)))
        (bit-shl 64 v (8 * k) i hi)
    ∙ elim (eq_or_ne (i / 8) k) [
      | inl e ↦ ground (
        arith,
        bit-ones 8 (i - 8 * k),
        bit_cong {x = v} {y = v} {i = i - 8 * k} {j = i % 8} refl (omega arith),
      )
      | inr ne ↦ ground (arith, bit-ones 8 (i - 8 * k), bit-lt-pow 8 v hv (i - 8 * k))
    ]

pub bit_at-set_byte :
    (qw : List ℕ) (j v p : ℕ)
    → j < 8 * length qw
    → v < 2 ^ 8
    → bit_at (set_byte qw j v) p ≡ (if p / 8 == j then bit v (p % 8) else bit_at qw p)
unfolding set_byte
bit_at-set_byte qw j v p h hv = elim (eq_or_ne (p / 64) (j / 8)) [
  | inl e ↦
      bit_at-set_self qw (j / 8) _ p e (omega arith)
      ∙ put_byte_bit (get_or qw (j / 8) 0) v (j % 8) (p % 64) (omega arith) (omega arith) hv
      ∙ unfold bit_at in
        ground (
          arith,
          bit_cong {x = v} {y = v} {i = p % 64 % 8} {j = p % 8} refl (omega arith),
          ap (λ t. bit (get_or qw t 0) (p % 64)) e,
        )
  | inr ne ↦ bit_at-set_ne qw (j / 8) _ p ne ∙ ground arith
]

-- The first `m` bytes of the array are written, with the values of `f`.
record AreWritten (f : ℕ → ℕ) (qw : List ℕ) (m : ℕ) (ws : List ℕ) : Type 0 where
  same_length : length ws ≡ length qw
  words : IsWords 64 ws
  digits : (p : ℕ) → bit_at ws p ≡ (if ltb p (8 * m) then bit (f (p / 8)) (p % 8) else bit_at qw p)

module _ (f : ℕ → ℕ) (bytes : (j : ℕ) → f j < 2 ^ 8) (qw : List ℕ) (w : IsWords 64 qw) where
  set_byte-AreWritten :
      (m : ℕ) (ws : List ℕ)
      → m < 8 * length qw
      → AreWritten f qw m ws
      → AreWritten f qw (m + 1) (set_byte ws m (f m))
  set_byte-AreWritten m ws h a = record {
    same_length = unfold set_byte in length-set ws (m / 8) _ ∙ a.same_length;
    words =
        unfold set_byte in
        set-IsWords 64 ws (m / 8) _ a.words (
          bit_or-lt 64 _ _ (bit_and-lt 64 (get_or ws (m / 8) 0) _ (a.words (m / 8)))
            (shl-lt 64 (f m) (8 * (m % 8))));
    digits = λ p.
        bit_at-set_byte ws m (f m) p (rw a.same_length h) (bytes m) ∙ elim (eq_or_ne (p / 8) m) [
          | inl e ↦ ground (arith, ap (λ t. bit (f t) (p % 8)) e)
          | inr ne ↦ ground (arith, a.digits p)
        ];
  }

  write_bytes :
      (n : ℕ)
      → n ≤ 8 * length qw
      → AreWritten f qw n (for_range n 0 (λ j ws. set_byte ws j (f j)) qw)
  write_bytes n h =
      for_range_inv (AreWritten f qw) (λ j ws. set_byte ws j (f j)) n 0 n qw
        (λ m ws p q a. set_byte-AreWritten m ws (omega arith) a) (omega arith)
        (record { same_length = refl; words = w; digits = λ p. ground arith })

-- `memset` with 0xff sets the digits of the first `n` bytes, and no other.
pub memset_ones :
    (qw : List ℕ) (n : ℕ)
    → IsWords 64 qw
    → n ≤ 8 * length qw
    → (length (memset qw 255 n) ≡ length qw)
      × IsWords 64 (memset qw 255 n)
      × ((p : ℕ) → bit_at (memset qw 255 n) p ≡ (ltb p (8 * n) || bit_at qw p))
unfolding memset
memset_ones qw n w h =
    let a = write_bytes (λ j. 255) (λ j. omega arith) qw w n h in
    (a.same_length, a.words, λ p. a.digits p ∙ ground (arith, bit-ones 8 (p % 8)))

-- `memset` with 0 clears the digits of the first `n` bytes.
pub memset_zeros :
    (qw : List ℕ) (n : ℕ)
    → IsWords 64 qw
    → n ≤ 8 * length qw
    → (length (memset qw 0 n) ≡ length qw)
      × ((p : ℕ) → p < 8 * n → bit_at (memset qw 0 n) p ≡ false)
unfolding memset
memset_zeros qw n w h =
    let a = write_bytes (λ j. 0) (λ j. omega arith) qw w n h in
    (a.same_length, λ p k. a.digits p ∙ ground (arith, bit-zero (p % 8)))

-- `memcpy` of `n` bytes: the digits of those bytes, then those that were there.
pub memcpy_lem :
    (qw raw : List ℕ) (n : ℕ)
    → IsWords 64 qw
    → IsWords 8 raw
    → n ≤ 8 * length qw
    → (length (memcpy qw raw n) ≡ length qw)
      × IsWords 64 (memcpy qw raw n)
      × ((p : ℕ)
          → bit_at (memcpy qw raw n) p ≡ (if ltb p (8 * n) then byte_bit raw p else bit_at qw p))
unfolding memcpy byte_bit
memcpy_lem qw raw n w v h =
    let a = write_bytes (λ j. get_or raw j 0) v qw w n h in (a.same_length, a.words, a.digits)
