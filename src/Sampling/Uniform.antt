-- ===== src/Sampling/Uniform.antt =====
-- Vectors of `R_BITS` random digits: no digit beyond them, and an odd weight where it is asked for.
use bike_modify.Base.{
  ℕ, zero, suc, ◌+◌, ◌-◌, ◌*◌, ◌/◌, ◌%◌, ◌^◌, ◌≤◌, ◌<◌, ◌≡◌, refl, ap, ◌∙◌, arith,
}
use bike_modify.Base.{
  List, length, get_or, set, length-set, get_or-set_self, get_or-set_ne, eq_or_ne, inl, inr,
}
use bike_modify.Base.{Bool, false, xor, ◌==◌, bit_xor, bit_and, Bool-cases, ==_iff}
use bike_modify.Bits.{bit, bit-xor, bit-zero}
use bike_modify.Bytes.{byte_bit}
use bike_modify.Params.{
  Level, r_bits, r_size, r_size-lt, layout, last_r_byte_lead, last_r_byte_mask,
}
use bike_modify.Utilities.{r_bits_vector_weight}
use bike_modify.Utilities.Weight.{ones, ones_cong, ones_first, r_bits_vector_weight_lem}
use bike_modify.FindErr.{mask_last_byte}
use bike_modify.FindErr.Flip.{mask_last_byte_clears}
use bike_modify.Result.{ok, ◌>>=◌}
use bike_modify.Prf.{Aes, State}
use bike_modify.Prf.Stream.{stream, length-stream}
use bike_modify.Prf.Draw.{IsAt, blocks_needed, aes_ctr_prf_lem}
use bike_modify.Sampling.{
  make_odd_weight, mask_top, restrict, MustBeOdd, no_restriction, must_be_odd,
}
use bike_modify.Sampling.{to_r_bits, sample_uniform_r_bits_with_fixed_prf_context}

bit-one : (i : ℕ) → bit 1 i ≡ (i == 0)
unfolding bit
bit-one zero = refl
bit-one (suc i) = bit-zero i ∙ ground arith

-- `r->raw[0] ^= 1` flips digit 0 and no other.
flipped :
    (r : List ℕ) (p : ℕ)
    → 0 < length r
    → byte_bit (set r 0 (bit_xor (get_or r 0 0) 1)) p ≡ xor (byte_bit r p) (p == 0)
unfolding byte_bit xor
flipped r p h = elim (eq_or_ne 0 (p / 8)) [
  | inl e ↦ rw (← e) (
      ap (λ t. bit t (p % 8)) (get_or-set_self r 0 _ 0 h)
      ∙ bit-xor (p % 8) (get_or r 0 0) 1
      ∙ ground (arith, bit-one (p % 8)))
  | inr ne ↦ ap (λ t. bit t (p % 8)) (get_or-set_ne r 0 (p / 8) _ 0 ne) ∙ ground arith
]

ones_flip :
    (f g : ℕ → Bool) (n : ℕ)
    → 0 < n
    → ((p : ℕ) → g p ≡ xor (f p) (p == 0))
    → (ones g n + ones f n) % 2 ≡ 1
unfolding xor
ones_flip f g zero h e = absurd (omega arith)
ones_flip f g (suc n) h e =
    let rest = ones_cong (λ i. g (suc i)) (λ i. f (suc i)) n (λ i k. e (suc i) ∙ ground arith) in
    ground (arith, ones_first f n, ones_first g n, rest, e 0)

-- The weight is odd after `make_odd_weight`.
pub make_odd_weight_lem :
    (l : Level) (r : List ℕ) → 0 < length r → r_bits_vector_weight l (make_odd_weight l r) % 2 ≡ 1
unfolding make_odd_weight
make_odd_weight_lem l r h = elim (eq_or_ne (r_bits_vector_weight l r % 2) 1) [
  | inl e ↦ rw ((==_iff (r_bits_vector_weight l r % 2) 1).1 e) e
  | inr ne ↦
      let s = set r 0 (bit_xor (get_or r 0 0) 1) in
      let odd =
        ones_flip (byte_bit r) (byte_bit s) (r_bits l) (omega (arith, layout l))
          (λ p. flipped r p h) in
      elim (Bool-cases (r_bits_vector_weight l r % 2 == 1)) [
        | inl t ↦ absurd (ne ((==_iff (r_bits_vector_weight l r % 2) 1).0 t))
        | inr f ↦
            rw f
              (omega (arith, ne, odd, r_bits_vector_weight_lem l r, r_bits_vector_weight_lem l s))
      ]
]

-- The mask is that of the last byte.
mask_top-mask_last_byte : (l : Level) (r : List ℕ) → mask_top l r ≡ mask_last_byte l r
unfolding mask_top mask_last_byte last_r_byte_mask
mask_top-mask_last_byte l r =
    ap (λ (k : ℕ). set r (r_size l - 1) (bit_and (get_or r (r_size l - 1) 0) (2 ^ k - 1)))
      {x = r_bits l + 8 - r_size l * 8} {y = last_r_byte_lead l} (omega (arith, layout l))

make_odd_weight-high :
    (l : Level) (r : List ℕ) (p : ℕ)
    → 0 < length r
    → 0 < p
    → byte_bit (make_odd_weight l r) p ≡ byte_bit r p
unfolding make_odd_weight xor
make_odd_weight-high l r p h pos = elim (Bool-cases (r_bits_vector_weight l r % 2 == 1)) [
  | inl t ↦ rw t refl
  | inr f ↦ rw f (flipped r p h ∙ ground arith)
]

-- What the restriction promises of the weight.
abbrev pub IsRestricted : Level → MustBeOdd → List ℕ → Type 0
IsRestricted l no_restriction r = Unit
IsRestricted l must_be_odd r = r_bits_vector_weight l r % 2 ≡ 1

-- A vector of `R_SIZE` bytes with no digit from `R_BITS` on.
pub record IsUniform (l : Level) (odd : MustBeOdd) (r : List ℕ) : Type 0 where
  pub padding : (p : ℕ) → r_bits l ≤ p → p < 8 * r_size l → byte_bit r p ≡ false
  pub weight : IsRestricted l odd r

restrict_lem :
    (l : Level) (odd : MustBeOdd) (bytes : List ℕ)
    → length bytes ≡ r_size l
    → IsUniform l odd (restrict l odd (mask_top l bytes))
unfolding restrict
restrict_lem l no_restriction bytes e = record {
  padding = λ p h k. rw (mask_top-mask_last_byte l bytes) (mask_last_byte_clears l bytes p e h k);
  weight = tt;
}
restrict_lem l must_be_odd bytes e =
    let some : 0 < length (mask_top l bytes) =
      unfold mask_top in rw (length-set bytes (r_size l - 1) _, e) (omega (arith, layout l)) in
    record {
      padding = λ p h k.
          make_odd_weight-high l (mask_top l bytes) p some (omega (arith, layout l))
          ∙ rw (mask_top-mask_last_byte l bytes) (mask_last_byte_clears l bytes p e h k);
      weight = make_odd_weight_lem l (mask_top l bytes) some;
    }

-- With enough invocations left, the sampling of a vector returns one with no digit from `R_BITS` on,
-- of odd weight if that is asked for, and the generator has given out `R_SIZE` bytes more.
pub sample_uniform_r_bits_lem :
    (l : Level) (aes : Aes) (s : State aes) (n : ℕ) (odd : MustBeOdd)
    → IsAt aes s n
    → blocks_needed aes s (r_size l) ≤ s.rem_invokations
    → (r : List ℕ) × (t : State aes) × (sample_uniform_r_bits_with_fixed_prf_context l aes s odd
        ≡ ok (r, t))
      × IsUniform l odd r
      × IsAt aes t (n + r_size l)
unfolding sample_uniform_r_bits_with_fixed_prf_context to_r_bits
sample_uniform_r_bits_lem l aes s n odd a enough =
    let (t, e, at, key, used) =
      aes_ctr_prf_lem aes s n (r_size l) a (omega (arith, r_size-lt l)) enough in
    let bytes = stream aes s.ks n (r_size l) in
    (
      restrict l odd (mask_top l bytes),
      t,
      ap (λ x. x >>= to_r_bits l aes odd) e,
      restrict_lem l odd bytes (length-stream aes s.ks n (r_size l)),
      at,
    )
