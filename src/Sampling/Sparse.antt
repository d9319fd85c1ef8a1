-- ===== src/Sampling/Sparse.antt =====
-- `generate_sparse_rep` ends, with distinct indices below the bound.
use bike_modify.Base.{
  ℕ, zero, suc, ◌+◌, ◌*◌, ◌^◌, ◌≤◌, ◌<◌, ◌≡◌, ◌≢◌, refl, sym, subst, ap, ◌∙◌, arith, List, Bool,
  length, get_or, set,
}
use bike_modify.Base.{
  ◌⊎◌, inl, inr, lt_or_le, eq_or_ne, ltb, lt→ltb, le→ltb, true, false, length-set, get_or-set_self,
  get_or-set_ne,
}
use bike_modify.Base.{◌||◌, get_or_past}
use bike_modify.Result.{Result, ok, fail, aes_over_used, ◌>>=◌}
use bike_modify.Prf.{Aes, State}
use bike_modify.Prf.Draw.{IsAt}
use bike_modify.Sampling.{
  is_new, is_new_from, store_or_retry, fill_wlist, get_rand_mod_len, most_rounds,
}
use bike_modify.Sampling.{generate_sparse_rep, assign_values, set_bits}
use bike_modify.Params.{Level, max_weight}
use bike_modify.Base.{◌==◌, ◌%◌, le→leb}
use bike_modify.Sampling.SetBits.{is_listed, set_bits_lem, secure_set_bits-ok}
use bike_modify.Word.{IsWords, bit_at, ◌>>>◌}
use bike_modify.Bytes.{memset, memset_zeros}
use bike_modify.Sampling.Bounded.{IsAt-le, get_rand_mod_len_lem}

-- The first `ctr` indices are distinct and below `len`.
pub record IsSample (len : ℕ) (wlist : List ℕ) (ctr : ℕ) : Type 0 where
  pub below : (i : ℕ) → i < ctr → get_or wlist i 0 < len
  pub distinct : (i j : ℕ) → i < j → j < ctr → get_or wlist i 0 ≢ get_or wlist j 0

is_new_from_lem :
    (n i : ℕ) (wlist : List ℕ) (ctr : ℕ)
    → ((is_new_from n i wlist ctr ≡ 1)
        × ((k : ℕ) → i ≤ k → k < i + n → get_or wlist k 0 ≢ get_or wlist ctr 0))
      ⊎ (is_new_from n i wlist ctr ≡ 0)
unfolding is_new_from
is_new_from_lem zero i wlist ctr = inl (refl, λ k p q. absurd (omega arith))
is_new_from_lem (suc n) i wlist ctr = elim (eq_or_ne (get_or wlist i 0) (get_or wlist ctr 0)) [
  | inl e ↦ inr (ground (arith, e))
  | inr ne ↦ elim (is_new_from_lem n (i + 1) wlist ctr) [
    | inl new ↦ inl (
      ground (arith, ne, new.0),
      λ k p q. elim (eq_or_ne i k) [
        | inl e ↦ rw (← e) ne
        | inr other ↦ new.1 k (omega arith) (omega arith)
      ],
    )
    | inr old ↦ inr (ground (arith, ne, old))
  ]
]

-- Writing index `ctr` keeps those before it.
set-IsSample :
    (len : ℕ) (wlist : List ℕ) (ctr v : ℕ)
    → IsSample len wlist ctr
    → IsSample len (set wlist ctr v) ctr
set-IsSample len wlist ctr v s = record {
  below = λ i p. rw (get_or-set_ne wlist ctr i v 0 (omega arith)) (s.below i p);
  distinct = λ i j p q.
      rw (get_or-set_ne wlist ctr i v 0 (omega arith), get_or-set_ne wlist ctr j v 0 (omega arith))
        (s.distinct i j p q);
}

suc-IsSample :
    (len : ℕ) (wlist : List ℕ) (ctr : ℕ)
    → IsSample len wlist ctr
    → get_or wlist ctr 0 < len
    → ((k : ℕ) → 0 ≤ k → k < 0 + ctr → get_or wlist k 0 ≢ get_or wlist ctr 0)
    → IsSample len wlist (ctr + 1)
suc-IsSample len wlist ctr s h new = record {
  below = λ i p. elim (eq_or_ne ctr i) [ inl e ↦ rw (← e) h | inr ne ↦ s.below i (omega arith) ];
  distinct = λ i j p q. elim (eq_or_ne ctr j) [
    | inl e ↦ rw (← e) (new i (omega arith) (omega arith))
    | inr ne ↦ s.distinct i j p (omega arith)
  ];
}

module _ (aes : Aes) (weight len : ℕ) where
  -- A sample in a list of the same length, or the failure of the generator.
  abbrev pub IsFilled : ℕ → Result (List ℕ × State aes) → Type 0
  IsFilled size result =
      ((w : List ℕ) × (t : State aes) × (m : ℕ) × (result ≡ ok (w, t))
        × (length w ≡ size)
        × IsSample len w weight
        × IsAt aes t m)
      ⊎ (result ≡ fail aes_over_used)

  stored :
      (rounds : ℕ) (wlist : List ℕ) (ctr : ℕ) (s t : State aes) (r : ℕ) (b : Bool)
      → get_rand_mod_len aes len s ≡ ok (r, t)
      → ltb (ctr + is_new (set wlist ctr r) ctr) weight ≡ b
      → fill_wlist aes (suc rounds) weight len wlist ctr s ≡ elim b [
        | true ↦
            fill_wlist aes rounds weight len
              (set wlist ctr r)
              (ctr + is_new (set wlist ctr r) ctr)
              t
        | false ↦ ok (set wlist ctr r, t)
      ]
  unfolding fill_wlist store_or_retry
  stored rounds wlist ctr s t r b e h =
      ap (λ x. x >>= store_or_retry aes (fill_wlist aes rounds weight len) weight wlist ctr) e
      ∙ ap
          (λ c. elim c [
            | true ↦
                fill_wlist aes rounds weight len (set wlist ctr r)
                  (ctr + is_new (set wlist ctr r) ctr) t
            | false ↦ ok (set wlist ctr r, t)
          ])
          h

  -- The sample after a round, for a list that has room.
  next-IsSample :
      (wlist : List ℕ) (ctr r : ℕ)
      → IsSample len wlist ctr
      → ctr < length wlist
      → r < len
      → IsSample len (set wlist ctr r) (ctr + is_new (set wlist ctr r) ctr)
        × (is_new (set wlist ctr r) ctr ≤ 1)
  unfolding is_new
  next-IsSample wlist ctr r s room h =
      let w = set wlist ctr r in
      let kept = set-IsSample len wlist ctr r s in
      elim (is_new_from_lem ctr 0 w ctr) [
        | inl new ↦ rw new.0 (
          suc-IsSample len w ctr kept (rw (get_or-set_self wlist ctr r 0 room) h) new.1,
          omega arith,
        )
        | inr old ↦ rw old (let same : ctr + 0 ≡ ctr = omega arith in rw same kept, omega arith)
      ]

  -- A round that draws, from what the rounds after it return.
  one_round :
      (rounds n : ℕ) (wlist : List ℕ) (ctr : ℕ) (s : State aes)
      → IsSample len wlist ctr
      → ctr < weight
      → weight ≤ length wlist
      → ((m : ℕ) (w : List ℕ) (c : ℕ) (t : State aes)
          → IsAt aes t m
          → n + 4 ≤ m
          → IsSample len w c
          → c < weight
          → weight ≤ length w
          → IsFilled (length w) (fill_wlist aes rounds weight len w c t))
      → ((r : ℕ) × (t : State aes) × (m : ℕ) × (get_rand_mod_len aes len s ≡ ok (r, t))
          × (r < len)
          × IsAt aes t m
          × (n + 4 ≤ m))
      → IsFilled (length wlist) (fill_wlist aes (suc rounds) weight len wlist ctr s)
  one_round rounds n wlist ctr s sample p room again (r, t, m, e, r_lt, at, far) =
      let w = set wlist ctr r in
      let c = ctr + is_new w ctr in
      let next = next-IsSample wlist ctr r sample (omega arith) r_lt in
      let size = length-set wlist ctr r in
      elim (lt_or_le c weight) [
        | inl more ↦
            subst (IsFilled (length wlist))
              (sym (stored rounds wlist ctr s t r true e (lt→ltb c weight more)))
              (subst (λ k. IsFilled k (fill_wlist aes rounds weight len w c t)) size
                (again m w c t at far next.0 more (rw size room)))
        | inr done ↦
            let full : c ≡ weight = omega (arith, next.1) in
            inl (
              w,
              t,
              m,
              stored rounds wlist ctr s t r false e (le→ltb c weight done),
              size,
              subst (IsSample len w) full next.0,
              at,
            )
      ]

  fill_wlist_lem :
      (rounds n : ℕ) (wlist : List ℕ) (ctr : ℕ) (s : State aes)
      → IsAt aes s n
      → 2 ^ 36 < n + 4 * rounds
      → IsSample len wlist ctr
      → ctr < weight
      → weight ≤ length wlist
      → IsFilled (length wlist) (fill_wlist aes rounds weight len wlist ctr s)
  fill_wlist_lem zero n wlist ctr s a h sample p room = absurd (omega (arith, IsAt-le aes s n a))
  fill_wlist_lem (suc rounds) n wlist ctr s a h sample p room =
      elim (get_rand_mod_len_lem aes len n s a) [
        | inr f ↦ inr (
            unfold fill_wlist in
            ap (λ x. x >>= store_or_retry aes (fill_wlist aes rounds weight len) weight wlist ctr)
              f)
        | inl d ↦
            one_round rounds n wlist ctr s sample p room
              (λ m w c t at far next more big.
                fill_wlist_lem rounds m w c t at (omega arith) next more big)
              d
      ]

  sample_lem :
      (n : ℕ) (wlist : List ℕ) (s : State aes)
      → IsAt aes s n
      → 0 < weight
      → weight ≤ length wlist
      → IsFilled (length wlist) (fill_wlist aes most_rounds weight len wlist 0 s)
  sample_lem n wlist s a p room =
      fill_wlist_lem most_rounds n wlist 0 s a (omega arith)
        (record { below = λ i q. absurd (omega arith); distinct = λ i j q k. absurd (omega arith) })
        p room

-- Past the end of the list the numbers read as 0.
IsSample-IsWords :
    (len : ℕ) (w : List ℕ) (weight : ℕ)
    → IsSample len w weight
    → length w ≡ weight
    → len ≤ 2 ^ 32
    → IsWords 32 w
IsSample-IsWords len w weight s e h i = elim (lt_or_le i weight) [
  | inl p ↦ omega (arith, s.below i p)
  | inr p ↦ rw (get_or_past w i 0 (omega arith)) (omega arith)
]

-- What `generate_sparse_rep` returns: the indices in `w`, a sample, and in `a` their digits.
pub record IsSparse (weight len : ℕ) (a w : List ℕ) : Type 0 where
  pub size : length w ≡ weight
  pub sample : IsSample len w weight
  pub digits : (p : ℕ) → p < len → bit_at a p ≡ is_listed w weight 0 p

module _ (aes : Aes) (a : List ℕ) (weight len padded_len : ℕ) where
  -- A sparse vector with its indices, or the failure of the generator.
  abbrev pub IsGenerated : Result (List ℕ × List ℕ × State aes) → Type 0
  IsGenerated result =
      ((a' w : List ℕ) × (t : State aes) × (m : ℕ) × (result ≡ ok (a', w, t))
        × IsSparse weight len a' w
        × IsAt aes t m)
      ⊎ (result ≡ fail aes_over_used)

  -- The assertions at the start hold: the length in bits does not wrap.
  pub started :
      (l : Level)
      → padded_len % 64 ≡ 0
      → len ≤ padded_len * 8
      → padded_len * 8 < 2 ^ 32
      → (wlist : List ℕ) (s : State aes)
      → generate_sparse_rep aes l a wlist weight len padded_len s ≡ (
          fill_wlist aes most_rounds weight len wlist 0 s
          >>= assign_values aes l a weight len padded_len)
  unfolding generate_sparse_rep
  started l aligned covers small wlist s =
      let multiple : (padded_len % 64 == 0) ≡ true = ground (arith, aligned) in
      rw (multiple, le→leb len (padded_len * 8 % 2 ^ 32) (omega arith)) refl

  module _ (l : Level) (words : IsWords 64 a) (room : padded_len ≤ 8 * length a)
      (aligned : padded_len % 64 ≡ 0) (covers : len ≤ padded_len * 8)
      (small : padded_len * 8 < 2 ^ 32) (fits : weight ≤ max_weight l) where
    assign_values_lem :
        (result : Result (List ℕ × State aes))
        → IsFilled aes weight len weight result
        → IsGenerated (result >>= assign_values aes l a weight len padded_len)
    unfolding assign_values
    assign_values_lem result (inr f) =
        inr (ap (λ x. x >>= assign_values aes l a weight len padded_len) f)
    assign_values_lem result (inl (w, t, m, e, size, sample, at)) =
        let cleared = memset a 0 (((len + 7) % 2 ^ 32) >>> 3) in
        let zeros = memset_zeros a (((len + 7) % 2 ^ 32) >>> 3) words (omega arith) in
        inl (
          set_bits cleared w padded_len weight,
          w,
          t,
          m,
          ap (λ x. x >>= assign_values aes l a weight len padded_len) e
              ∙ ap (λ r. r >>= λ b. ok (b, w, t))
                  (secure_set_bits-ok l cleared w padded_len weight (omega arith) fits),
          record {
            size = size;
            sample = sample;
            digits = λ p h.
                set_bits_lem cleared w padded_len weight p
                  (IsSample-IsWords len w weight sample size (omega arith)) (rw zeros.0 room)
                  (omega arith)
                ∙ ap (λ b. b || is_listed w weight 0 p) (zeros.1 p (omega arith));
          },
          at,
        )

    -- From a state at byte `n` of its key stream, with arrays of the sizes that the arguments say, a
    -- padded length of whole blocks of 64 bytes that is below 2^29 and holds `len` digits, and a
    -- positive weight of at most MAX_WEIGHT, so that the assertions hold, `generate_sparse_rep` ends.
    -- It returns `weight` distinct indices below `len`, and in `a` a vector whose digits below `len`
    -- are set exactly at them, or it fails with `E_AES_OVER_USED`.
    pub generate_sparse_rep_lem :
        (wlist : List ℕ) (n : ℕ) (s : State aes)
        → IsAt aes s n
        → 0 < weight
        → length wlist ≡ weight
        → IsGenerated (generate_sparse_rep aes l a wlist weight len padded_len s)
    generate_sparse_rep_lem wlist n s at pos size =
        subst IsGenerated (sym (started l aligned covers small wlist s)) (
          assign_values_lem (fill_wlist aes most_rounds weight len wlist 0 s) (
            subst (λ k. IsFilled aes weight len k (fill_wlist aes most_rounds weight len wlist 0 s))
              size (sample_lem aes weight len n wlist s at pos (omega arith))))
