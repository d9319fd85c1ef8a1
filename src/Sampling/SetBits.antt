-- ===== src/Sampling/SetBits.antt =====
-- `secure_set_bits` sets the digits that the list names.
use bike_modify.Base.{
  ℕ, zero, suc, ◌+◌, ◌-◌, ◌*◌, ◌/◌, ◌%◌, ◌^◌, ◌≤◌, ◌<◌, ◌≡◌, refl, sym, ap, ap₂, ◌∙◌, arith, List,
  length, get_or,
}
use bike_modify.Base.{◌⊎◌, inl, inr, eq_or_ne, lt_or_le, le→leb, gt→leb, ◌≢◌, length-fill, true}
use bike_modify.Params.{Level, max_weight}
use bike_modify.Result.{ok, assertion_failed}
use bike_modify.Base.{
  fill_inside, for_range, Bool, false, ◌||◌, ◌&&◌, ◌==◌, to_nat, bit_and, bit_or,
}
use bike_modify.Bits.{bit, bit-or, bit-and, bit-zero}
use bike_modify.Word.{bit_at, bit-shl, bit-ones, shl, ◌>>>◌, bit_and-mask, IsWords}
use bike_modify.Utilities.{secure_cmp32}
use bike_modify.Sampling.{set_bit, set_bits, secure_set_bits}

-- `p` is one of the `n` values of the list from place `j` on.
abbrev pub is_listed : List ℕ → ℕ → ℕ → ℕ → Bool
is_listed wlist zero j p = false
is_listed wlist (suc n) j p = (get_or wlist j 0 == p) || is_listed wlist n (j + 1) p

bit-one : (k i : ℕ) → k < 64 → i < 64 → bit (shl 64 1 k) i ≡ (i == k)
bit-one k i h p = bit-shl 64 1 k i p ∙ ground (arith, one (i - k))
  where
    one : (n : ℕ) → bit 1 n ≡ (n == 0)
    one zero = unfold bit in refl
    one (suc n) = unfold bit in (bit-zero n ∙ ground arith)

bit-full :
    (same i : ℕ)
    → same ≤ 1
    → i < 64
    → bit ((2 ^ 64 - 1 + to_nat (same == 0)) % 2 ^ 64) i ≡ (same == 1)
bit-full zero i h p = bit-zero i ∙ ground arith
bit-full (suc zero) i h p = bit-ones 64 i ∙ ground arith
bit-full (suc (suc n)) i h p = absurd (omega arith)

set_bit_lem :
    (wlist : List ℕ) (qw j tmp i : ℕ)
    → IsWords 32 wlist
    → i < 64
    → bit (set_bit wlist qw j tmp) i ≡ (bit tmp i || (get_or wlist j 0 == 64 * qw + i))
unfolding set_bit secure_cmp32
set_bit_lem wlist qw j tmp i words h =
    let w = get_or wlist j 0 in
    let low : bit_and w 63 ≡ w % 64 = bit_and-mask 6 w in
    bit-or i tmp _
    ∙ ap (λ t. bit tmp i || t)
        (bit-and i (shl 64 1 (bit_and w 63)) _
          ∙ ap₂ ◌&&◌ (bit-one (bit_and w 63) i (omega (arith, low)) h)
              (bit-full (secure_cmp32 (w >>> 6) qw) i (ground arith) h)
          ∙ ground (arith, low))

set_bits_word :
    (wlist : List ℕ) (qw n j tmp i : ℕ)
    → IsWords 32 wlist
    → i < 64
    → bit (for_range n j (set_bit wlist qw) tmp) i
      ≡ (bit tmp i || is_listed wlist n j (64 * qw + i))
unfolding for_range
set_bits_word wlist qw zero j tmp i words h = ground arith
set_bits_word wlist qw (suc n) j tmp i words h =
    set_bits_word wlist qw n (j + 1) (set_bit wlist qw j tmp) i words h
    ∙ ground (arith, set_bit_lem wlist qw j tmp i words h)

-- The loops of `secure_set_bits`, within the words that `a_len_bytes` covers.
pub set_bits_lem :
    (a wlist : List ℕ) (a_len_bytes weight p : ℕ)
    → IsWords 32 wlist
    → a_len_bytes ≤ 8 * length a
    → p < 64 * (a_len_bytes / 8)
    → bit_at (set_bits a wlist a_len_bytes weight) p ≡ (bit_at a p || is_listed wlist weight 0 p)
unfolding set_bits bit_at
set_bits_lem a wlist len weight p words room h =
    ap (λ t. bit t (p % 64))
      (fill_inside 0 (λ qw b. bit_or (get_or b qw 0) (for_range weight 0 (set_bit wlist qw) 0))
        (λ k xs ys e.
          ap (λ t. bit_or t (for_range weight 0 (set_bit wlist k) 0)) (e k (omega arith)))
        (len / 8) 0 a (p / 64) (omega arith) (omega arith) (omega arith))
    ∙ bit-or (p % 64) _ _
    ∙ ap (λ t. bit (get_or a (p / 64) 0) (p % 64) || t)
        (set_bits_word wlist (p / 64) weight 0 0 (p % 64) words (omega arith)
          ∙ ap₂ ◌||◌ (bit-zero (p % 64))
              (ap (is_listed wlist weight 0) {x = 64 * (p / 64) + p % 64} {y = p} (omega arith)))

-- A digit of the result depends on that digit of the array alone, and on the indices.
pub set_bits_local :
    (a a' wlist : List ℕ) (a_len_bytes weight p : ℕ)
    → a_len_bytes ≤ 8 * length a
    → a_len_bytes ≤ 8 * length a'
    → p < 64 * (a_len_bytes / 8)
    → bit_at a p ≡ bit_at a' p
    → bit_at (set_bits a wlist a_len_bytes weight) p
      ≡ bit_at (set_bits a' wlist a_len_bytes weight) p
set_bits_local a a' wlist len weight p room room' h e =
    digit a room
    ∙ ap (λ t. t || bit (for_range weight 0 (set_bit wlist (p / 64)) 0) (p % 64)) e
    ∙ sym (digit a' room')
  where
    digit :
        (a : List ℕ)
        → len ≤ 8 * length a
        → bit_at (set_bits a wlist len weight) p
          ≡ (bit_at a p || bit (for_range weight 0 (set_bit wlist (p / 64)) 0) (p % 64))
    digit a room =
        unfold set_bits in
        unfold bit_at in
        ap (λ t. bit t (p % 64))
          (fill_inside 0 (λ qw b. bit_or (get_or b qw 0) (for_range weight 0 (set_bit wlist qw) 0))
            (λ k xs ys e.
              ap (λ t. bit_or t (for_range weight 0 (set_bit wlist k) 0)) (e k (omega arith)))
            (len / 8) 0 a (p / 64) (omega arith) (omega arith) (omega arith))
        ∙ bit-or (p % 64) _ _

-- The array after `secure_set_bits`, for arguments that its assertions admit: within the bytes that
-- `a_len_bytes` counts, a digit is set exactly if it was set or is one of the first `weight` values
-- of the list.
pub record HasListed (l : Level) (a wlist : List ℕ) (a_len_bytes weight : ℕ) (b : List ℕ)
    : Type 0 where
  pub aligned : a_len_bytes % 8 ≡ 0
  pub fits : weight ≤ max_weight l
  pub size : length b ≡ length a
  pub digits :
      (p : ℕ) → p < 8 * a_len_bytes → bit_at b p ≡ (bit_at a p || is_listed wlist weight 0 p)

-- The call returns where both assertions hold.
pub secure_set_bits-ok :
    (l : Level) (a wlist : List ℕ) (a_len_bytes weight : ℕ)
    → a_len_bytes % 8 ≡ 0
    → weight ≤ max_weight l
    → secure_set_bits l a wlist a_len_bytes weight ≡ ok (set_bits a wlist a_len_bytes weight)
unfolding secure_set_bits
secure_set_bits-ok l a wlist len weight aligned fits =
    let even : (len % 8 == 0) ≡ true = ground (arith, aligned) in
    rw (even, le→leb weight (max_weight l) fits) refl

length-set_bits :
    (a wlist : List ℕ) (a_len_bytes weight : ℕ)
    → length (set_bits a wlist a_len_bytes weight) ≡ length a
unfolding set_bits
length-set_bits a wlist len weight =
    length-fill 0 (λ qw b. bit_or (get_or b qw 0) (for_range weight 0 (set_bit wlist qw) 0))
      (len / 8) 0 a

-- On an array that has room and a list of at least `weight` indices of 32 bits, `secure_set_bits`
-- returns with exactly the digits set that were set or that the first `weight` values of the list
-- name, or one of its assertions fails: the length is no multiple of 8, or the weight is above
-- MAX_WEIGHT.
pub secure_set_bits_lem :
    (l : Level) (a wlist : List ℕ) (a_len_bytes weight : ℕ)
    → IsWords 32 wlist
    → a_len_bytes ≤ 8 * length a
    → weight ≤ length wlist
    → ((b : List ℕ) × (secure_set_bits l a wlist a_len_bytes weight ≡ ok b)
        × HasListed l a wlist a_len_bytes weight b)
      ⊎ ((secure_set_bits l a wlist a_len_bytes weight ≡ assertion_failed)
          × ((a_len_bytes % 8 ≢ 0) ⊎ (max_weight l < weight)))
secure_set_bits_lem l a wlist len weight words room listed = elim (eq_or_ne (len % 8) 0) [
  | inr odd ↦ inr (stopped odd, inl odd)
  | inl even ↦ elim (lt_or_le (max_weight l) weight) [
    | inl large ↦ inr (too_many even large, inr large)
    | inr fits ↦ inl (
      set_bits a wlist len weight,
      secure_set_bits-ok l a wlist len weight even fits,
      record {
        aligned = even;
        fits = fits;
        size = length-set_bits a wlist len weight;
        digits = λ p h. set_bits_lem a wlist len weight p words room (omega arith);
      },
    )
  ]
]
  where
    stopped : len % 8 ≢ 0 → secure_set_bits l a wlist len weight ≡ assertion_failed
    stopped odd =
        unfold secure_set_bits in
        (let no_multiple : (len % 8 == 0) ≡ false = ground (arith, odd) in rw no_multiple refl)

    too_many :
        len % 8 ≡ 0
        → max_weight l < weight
        → secure_set_bits l a wlist len weight ≡ assertion_failed
    too_many even large =
        unfold secure_set_bits in
        (let multiple : (len % 8 == 0) ≡ true = ground (arith, even) in
          rw (multiple, gt→leb (max_weight l) weight large) refl)
