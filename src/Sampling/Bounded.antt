-- ===== src/Sampling/Bounded.antt =====
-- The draws of numbers below a bound end, and give such a number unless the generator is used up.
use bike_modify.Base.{
  ℕ, zero, suc, ◌+◌, ◌*◌, ◌^◌, ◌≤◌, ◌<◌, ◌≡◌, sym, subst, ap, ◌∙◌, arith, List, Bool,
}
use bike_modify.Base.{◌⊎◌, inl, inr, lt_or_le, ltb, lt→ltb, le→ltb, true, false, bit_and}
use bike_modify.Word.{mask}
use bike_modify.Utilities.{bit_scan_reverse}
use bike_modify.Result.{Result, ok, fail, aes_over_used, ◌>>=◌}
use bike_modify.Prf.{Aes, State, aes_ctr_prf}
use bike_modify.Prf.Stream.{stream}
use bike_modify.Prf.Draw.{IsAt, blocks_needed, aes_ctr_prf_lem, aes_ctr_prf-fail}
use bike_modify.Sampling.{word32, keep_or_retry, rand_below, get_rand_mod_len, most_rounds}

module _ (aes : Aes) where
  -- A generator at byte `n` has given out no more bytes than its blocks have.
  pub IsAt-le : (s : State aes) (n : ℕ) → IsAt aes s n → n ≤ 2 ^ 36
  IsAt-le s n a = omega (arith, a.room, a.place, a.within)

  -- What a draw from byte `n` on returns: a number below `len` and a state further on, or the
  -- failure of the generator.
  abbrev pub IsDrawn : ℕ → ℕ → Result (ℕ × State aes) → Type 0
  IsDrawn len n result =
      ((r : ℕ) × (t : State aes) × (m : ℕ) × (result ≡ ok (r, t))
        × (r < len)
        × IsAt aes t m
        × (n + 4 ≤ m))
      ⊎ (result ≡ fail aes_over_used)

  -- The number that a round draws.
  abbrev pub drawn : ℕ → List ℕ → ℕ
  drawn len bytes = bit_and (word32 bytes) (mask (bit_scan_reverse len))

  pub tested :
      (rounds len : ℕ) (s t : State aes) (bytes : List ℕ) (b : Bool)
      → aes_ctr_prf aes s 4 ≡ ok (bytes, t)
      → ltb (drawn len bytes) len ≡ b
      → rand_below aes (suc rounds) len s
        ≡ elim b [ true ↦ ok (drawn len bytes, t) | false ↦ rand_below aes rounds len t ]
  unfolding rand_below keep_or_retry
  tested rounds len s t bytes b e h =
      ap (λ x. x >>= keep_or_retry aes len (rand_below aes rounds len)) e
      ∙ ap (λ c. elim c [ true ↦ ok (drawn len bytes, t) | false ↦ rand_below aes rounds len t ]) h

  -- One round, from what the rounds after it return.
  one_round :
      (rounds len n : ℕ) (s t : State aes) (bytes : List ℕ)
      → aes_ctr_prf aes s 4 ≡ ok (bytes, t)
      → IsAt aes t (n + 4)
      → IsDrawn len (n + 4) (rand_below aes rounds len t)
      → IsDrawn len n (rand_below aes (suc rounds) len s)
  one_round rounds len n s t bytes e at rest = elim (lt_or_le (drawn len bytes) len) [
    | inl below ↦ inl (
      drawn len bytes,
      t,
      n + 4,
      tested rounds len s t bytes true e (lt→ltb (drawn len bytes) len below),
      below,
      at,
      omega arith,
    )
    | inr above ↦
        subst (IsDrawn len n)
          (sym (tested rounds len s t bytes false e (le→ltb (drawn len bytes) len above)))
          elim rest [ inl d ↦ later d | inr f ↦ inr f ]
  ]
    where
      later :
          {result : Result (ℕ × State aes)}
          → ((r : ℕ) × (t : State aes) × (m : ℕ) × (result ≡ ok (r, t))
              × (r < len)
              × IsAt aes t m
              × (n + 4 + 4 ≤ m))
          → IsDrawn len n result
      later (r, t, m, e, below, at, far) = inl (r, t, m, e, below, at, omega arith)

  rand_below_lem :
      (rounds len n : ℕ) (s : State aes)
      → IsAt aes s n
      → 2 ^ 36 < n + 4 * rounds
      → IsDrawn len n (rand_below aes rounds len s)
  rand_below_lem zero len n s a h = absurd (omega (arith, IsAt-le s n a))
  rand_below_lem (suc rounds) len n s a h =
      elim (lt_or_le s.rem_invokations (blocks_needed aes s 4)) [
        | inl few ↦ inr (
            unfold rand_below in
            ap (λ t. t >>= keep_or_retry aes len (rand_below aes rounds len))
              (aes_ctr_prf-fail aes s n 4 a (omega arith) few))
        | inr enough ↦
            (let (t, e, at, key, used) = aes_ctr_prf_lem aes s n 4 a (omega arith) enough in
              one_round rounds len n s t (stream aes s.ks n 4) e at
                (rand_below_lem rounds len (n + 4) t at (omega arith)))
      ]

  -- From a state that has given out `n` bytes of its key stream, `get_rand_mod_len` ends: it returns
  -- a number below `len` and a state that has given out at least 4 bytes more, or it fails with
  -- `E_AES_OVER_USED`.
  pub get_rand_mod_len_lem :
      (len n : ℕ) (s : State aes) → IsAt aes s n → IsDrawn len n (get_rand_mod_len aes len s)
  unfolding get_rand_mod_len
  get_rand_mod_len_lem len n s a = rand_below_lem most_rounds len n s a (omega arith)
