-- ===== src/Kem/Scratch.antt =====
-- What `function_h` gives does not depend on what its arrays hold before.
use bike_modify.Base.{ℕ, ◌+◌, ◌*◌, ◌/◌, ◌%◌, ◌^◌, ◌≤◌, ◌<◌, ◌≡◌, sym, ap, ap₂, ◌∙◌, arith}
use bike_modify.Base.{List, length, replicate}
use bike_modify.Word.{◌>>>◌}
use bike_modify.Bytes.{byte_bit, memset, memset_zeros}
use bike_modify.Params.{
  Level, level1, level3, level5, r_bits, r_size, n_bits, n_size, n_padded_size, t1,
}
use bike_modify.Result.{Result, ok, ◌>>=◌, bind_cong, bind_nested}
use bike_modify.Prf.{Aes, State, init_aes_ctr_prf_state, max_aes_invokation}
use bike_modify.Sampling.{generate_sparse_rep, fill_wlist, assign_values, most_rounds, set_bits}
use bike_modify.Sampling.SetBits.{set_bits_local, secure_set_bits-ok}
use bike_modify.Sampling.Sparse.{started}
use bike_modify.Hash.{sha}
use bike_modify.FindErr.{Pair}
use bike_modify.Decode.{bytes_of}
use bike_modify.Decode.Polynomial.{poly_ext, bytes_of_cong, length-bytes_of, bytes_of-IsWords}
use bike_modify.Decode.Syndrome.{ArePolys}
use bike_modify.Kem.{split_e, pair_bytes, translate_hash_to_seed, function_h}
use bike_modify.Kem.Hashed.{IsScratch, aligned, covered, small, fits}
use bike_modify.Kem.Split.{split_e_lem}

-- The first bytes that are cleared are the `N_SIZE` bytes that are kept, and the padding has room.
cleared_bytes : (l : Level) → ((n_bits l + 7) % 2 ^ 32) >>> 3 ≡ n_size l
unfolding n_size n_bits
cleared_bytes level1 = omega arith
cleared_bytes level3 = omega arith
cleared_bytes level5 = omega arith

padded_bytes : (l : Level) → 8 * n_size l ≤ 64 * (n_padded_size l / 8)
unfolding n_size n_padded_size
padded_bytes level1 = omega arith
padded_bytes level3 = omega arith
padded_bytes level5 = omega arith

module _ (l : Level) (aes : Aes) where
  -- The vector of errors, from its indices.
  unfoldable pub sparse_bytes : List ℕ → List ℕ → List ℕ
  sparse_bytes e w =
      bytes_of (set_bits (memset e 0 (((n_bits l + 7) % 2 ^ 32) >>> 3)) w (n_padded_size l) (t1 l))
        (n_size l)

  sparse_bytes_lem :
      (e e' w : List ℕ) → IsScratch l e → IsScratch l e' → sparse_bytes e w ≡ sparse_bytes e' w
  unfolding sparse_bytes
  sparse_bytes_lem e e' w s s' =
      let k = ((n_bits l + 7) % 2 ^ 32) >>> 3 in
      let zeros =
        memset_zeros e k s.words (omega (arith, s.room, cleared_bytes l, padded_bytes l)) in
      let zeros' =
        memset_zeros e' k s'.words (omega (arith, s'.room, cleared_bytes l, padded_bytes l)) in
      bytes_of_cong _ _ (n_size l) (λ p h.
        set_bits_local (memset e 0 k) (memset e' 0 k) w (n_padded_size l) (t1 l) p
          (omega (arith, zeros.0, s.room)) (omega (arith, zeros'.0, s'.room))
          (omega (arith, padded_bytes l))
          (zeros.1 p (omega (arith, cleared_bytes l))
            ∙ sym (zeros'.1 p (omega (arith, cleared_bytes l)))))

  -- The pair of error polynomials, from the indices.
  unfoldable pub errors : List ℕ → Pair → List ℕ → Pair
  errors e splitted_e w = split_e l splitted_e (sparse_bytes e w)

  errors_lem :
      (e e' : List ℕ) (sp sp' : Pair) (w : List ℕ)
      → IsScratch l e
      → IsScratch l e'
      → length sp.val1 ≡ r_size l
      → length sp'.val1 ≡ r_size l
      → errors e sp w ≡ errors e' sp' w
  unfolding errors sparse_bytes
  errors_lem e e' sp sp' w s s' size size' = ap (split_e l sp) (sparse_bytes_lem e e' w s s') ∙ same
    where
      bytes : List ℕ
      bytes = sparse_bytes e' w

      one :
          ArePolys l (split_e l sp bytes)
          × ((p : ℕ)
              → p < r_bits l
              → (byte_bit (split_e l sp bytes).val0 p ≡ byte_bit bytes p)
                × (byte_bit (split_e l sp bytes).val1 p ≡ byte_bit bytes (r_bits l + p)))
      one = split_e_lem l sp _ size (length-bytes_of _ (n_size l)) (bytes_of-IsWords _ (n_size l))

      two :
          ArePolys l (split_e l sp' bytes)
          × ((p : ℕ)
              → p < r_bits l
              → (byte_bit (split_e l sp' bytes).val0 p ≡ byte_bit bytes p)
                × (byte_bit (split_e l sp' bytes).val1 p ≡ byte_bit bytes (r_bits l + p)))
      two = split_e_lem l sp' _ size' (length-bytes_of _ (n_size l)) (bytes_of-IsWords _ (n_size l))

      same : split_e l sp bytes ≡ split_e l sp' bytes
      same =
          ap₂ (λ x y. record { val0 = x; val1 = y })
            (poly_ext l _ _ one.0.first two.0.first (λ p h. (one.1 p h).0 ∙ sym (two.1 p h).0))
            (poly_ext l _ _ one.0.second two.0.second (λ p h. (one.1 p h).1 ∙ sym (two.1 p h).1))

  -- `function_h` as the choice of the indices and what is made of them.
  unfoldable pub drawn : Pair → Result (List ℕ × State aes)
  drawn mf =
      init_aes_ctr_prf_state aes max_aes_invokation
        (translate_hash_to_seed (sha (2 * r_size l) (pair_bytes l mf)))
      >>= fill_wlist aes most_rounds (t1 l) (n_bits l) (replicate (t1 l) 0) 0

  -- The assertions of the sampling hold for the errors.
  generated :
      (e : List ℕ) (s : State aes)
      → generate_sparse_rep aes l e (replicate (t1 l) 0) (t1 l) (n_bits l) (n_padded_size l) s ≡ (
          fill_wlist aes most_rounds (t1 l) (n_bits l) (replicate (t1 l) 0) 0 s
          >>= assign_values aes l e (t1 l) (n_bits l) (n_padded_size l))
  generated e s =
      started aes e (t1 l) (n_bits l) (n_padded_size l) l (aligned l) (covered l) (small l)
        (replicate (t1 l) 0) s

  assigned :
      (e : List ℕ) (splitted_e : Pair) (d : List ℕ × State aes)
      → (assign_values aes l e (t1 l) (n_bits l) (n_padded_size l) d >>= λ x.
          ok (split_e l splitted_e (bytes_of x.0 (n_size l))))
        ≡ ok (errors e splitted_e d.0)
  unfolding assign_values errors sparse_bytes
  assigned e splitted_e d =
      let pack : List ℕ → Result (List ℕ × List ℕ × State aes) = λ b. ok (b, d.0, d.1) in
      ap (λ r. r >>= pack >>= λ x. ok (split_e l splitted_e (bytes_of x.0 (n_size l))))
        (secure_set_bits-ok l (memset e 0 (((n_bits l + 7) % 2 ^ 32) >>> 3)) d.0 (n_padded_size l)
          (t1 l) (omega (arith, aligned l)) (fits l))

  pub function_h-drawn :
      (e : List ℕ) (splitted_e mf : Pair)
      → function_h l aes e splitted_e mf ≡ (drawn mf >>= λ d. ok (errors e splitted_e d.0))
  unfolding function_h drawn
  function_h-drawn e splitted_e mf =
      let start =
        init_aes_ctr_prf_state aes max_aes_invokation
          (translate_hash_to_seed (sha (2 * r_size l) (pair_bytes l mf))) in
      let draw = fill_wlist aes most_rounds (t1 l) (n_bits l) (replicate (t1 l) 0) 0 in
      let assign = assign_values aes l e (t1 l) (n_bits l) (n_padded_size l) in
      let split : List ℕ × List ℕ × State aes → Result Pair =
        λ d. ok (split_e l splitted_e (bytes_of d.0 (n_size l))) in
      bind_cong start
        (λ s.
          generate_sparse_rep aes l e (replicate (t1 l) 0) (t1 l) (n_bits l) (n_padded_size l) s
          >>= split)
        (λ s. draw s >>= λ d. ok (errors e splitted_e d.0))
        (λ s.
          ap (λ r. r >>= split) (generated e s)
          ∙ sym (bind_nested (draw s) assign split)
          ∙ bind_cong (draw s) (λ d. assign d >>= split) (λ d. ok (errors e splitted_e d.0))
              (assigned e splitted_e))
      ∙ bind_nested start draw (λ d. ok (errors e splitted_e d.0))

  -- What `function_h` gives does not depend on what its arrays hold before.
  pub function_h-scratch :
      (e e' : List ℕ) (sp sp' mf : Pair)
      → IsScratch l e
      → IsScratch l e'
      → length sp.val1 ≡ r_size l
      → length sp'.val1 ≡ r_size l
      → function_h l aes e sp mf ≡ function_h l aes e' sp' mf
  function_h-scratch e e' sp sp' mf s s' size size' =
      function_h-drawn e sp mf
      ∙ bind_cong (drawn mf) (λ d. ok (errors e sp d.0)) (λ d. ok (errors e' sp' d.0))
          (λ d. ap ok (errors_lem e e' sp sp' d.0 s s' size size'))
      ∙ sym (function_h-drawn e' sp' mf)
