-- ===== src/Kem/Hashed.antt =====
-- `function_h` returns errors of weight `T1`.
use bike_modify.Base.{
  ℕ, zero, suc, ◌+◌, ◌*◌, ◌%◌, ◌^◌, ◌≤◌, ◌<◌, ◌≡◌, ◌≢◌, refl, sym, ap, subst, ◌∙◌, arith,
}
use bike_modify.Base.{
  List, length, get_or, replicate, length-replicate, Bool, false, ◌||◌, ◌==◌, ltb, to_nat, inl, inr,
}
use bike_modify.Word.{IsWords}
use bike_modify.Bytes.{byte_bit}
use bike_modify.Params.{
  Level, level1, level3, level5, r_bits, r_size, n_bits, n_size, n_padded_size, t1, max_weight,
}
use bike_modify.Utilities.{r_bits_vector_weight}
use bike_modify.Utilities.Weight.{ones, ones_cong, ones_add, r_bits_vector_weight_lem}
use bike_modify.Result.{Result, Error, ok, fail, ◌>>=◌}
use bike_modify.Prf.{Aes, State, max_aes_invokation}
use bike_modify.Prf.Draw.{init_aes_ctr_prf_state-IsAt}
use bike_modify.Sampling.{generate_sparse_rep}
use bike_modify.Sampling.SetBits.{is_listed}
use bike_modify.Sampling.Sparse.{IsSample, IsSparse, IsGenerated, generate_sparse_rep_lem}
use bike_modify.Hash.{sha}
use bike_modify.FindErr.{Pair}
use bike_modify.Decode.{bytes_of}
use bike_modify.Decode.Polynomial.{length-bytes_of, bytes_of-IsWords, byte_bit-bytes_of}
use bike_modify.Decode.Syndrome.{ArePolys}
use bike_modify.Kem.{split_e, pair_bytes, translate_hash_to_seed, function_h}
use bike_modify.Kem.Split.{split_e_lem}

ones_insert :
    (x n : ℕ) (g : ℕ → Bool)
    → g x ≡ false
    → ones (λ p. (x == p) || g p) n ≡ to_nat (ltb x n) + ones g n
ones_insert x zero g h = ground arith
ones_insert x (suc n) g h = ground (arith, ones_insert x n g h, ap g {x = x} {y = n})

not_listed :
    (w : List ℕ) (n j x : ℕ)
    → ((i : ℕ) → j ≤ i → i < j + n → get_or w i 0 ≢ x)
    → is_listed w n j x ≡ false
not_listed w zero j x h = refl
not_listed w (suc n) j x h = ground (
  arith,
  h j (omega arith) (omega arith),
  not_listed w n (j + 1) x (λ i p q. h i (omega arith) (omega arith)),
)

-- As many digits are set as there are distinct indices.
ones_listed : (w : List ℕ) (len n j : ℕ) → IsSample len w (j + n) → ones (is_listed w n j) len ≡ n
ones_listed w len zero j s = none len
  where
    none : (len : ℕ) → ones (λ p. false) len ≡ 0
    none zero = refl
    none (suc len) = omega (arith, none len)
ones_listed w len (suc n) j s =
    let rest : IsSample len w (j + 1 + n) =
      let same : j + 1 + n ≡ j + suc n = omega arith in rw same s in
    omega (
      arith,
      ones_insert (get_or w j 0) len (is_listed w n (j + 1)) (
          not_listed w n (j + 1) (get_or w j 0)
            (λ i p q e. s.distinct j i (omega arith) (omega arith) (sym e))),
      ones_listed w len n (j + 1) rest,
      inside (s.below j (omega arith)),
    )
  where
    inside : {x m : ℕ} → x < m → to_nat (ltb x m) ≡ 1
    inside h = ground arith

-- The sizes of the vector of errors.
pub covered : (l : Level) → n_bits l ≤ n_padded_size l * 8
unfolding n_bits n_padded_size
covered level1 = omega arith
covered level3 = omega arith
covered level5 = omega arith

pub small : (l : Level) → n_padded_size l * 8 < 2 ^ 32
unfolding n_padded_size
small level1 = omega arith
small level3 = omega arith
small level5 = omega arith

pub aligned : (l : Level) → n_padded_size l % 64 ≡ 0
unfolding n_padded_size
aligned level1 = omega arith
aligned level3 = omega arith
aligned level5 = omega arith

pub fits : (l : Level) → t1 l ≤ max_weight l
unfolding max_weight
fits l = ground arith

held : (l : Level) → n_bits l ≤ 8 * n_size l
unfolding n_bits n_size
held level1 = omega arith
held level3 = omega arith
held level5 = omega arith

some_errors : (l : Level) → 0 < t1 l
unfolding t1
some_errors level1 = omega arith
some_errors level3 = omega arith
some_errors level5 = omega arith

injective : {x y : Pair} → ok x ≡ ok y → x ≡ y
injective h = cc

no_success : {c : Error} {e : Pair} {P : Type 0} → fail c ≡ ok e → P
no_success h = cc

-- An array of `padded_e_t` that nothing has written yet.
pub record IsScratch (l : Level) (e : List ℕ) : Type 0 where
  pub words : IsWords 64 e
  pub room : n_padded_size l ≤ 8 * length e

module _ (l : Level) (splitted_e : Pair) (size : length splitted_e.val1 ≡ r_size l) where
  -- The polynomials that `split_e` makes of a sparse vector.
  split_weight :
      (a w : List ℕ)
      → IsSparse (t1 l) (n_bits l) a w
      → let e = split_e l splitted_e (bytes_of a (n_size l)) in
        r_bits_vector_weight l e.val0 + r_bits_vector_weight l e.val1 ≡ t1 l
  split_weight a w s =
      let e = split_e l splitted_e (bytes_of a (n_size l)) in
      let cut =
        split_e_lem l splitted_e (bytes_of a (n_size l)) size (length-bytes_of a (n_size l))
          (bytes_of-IsWords a (n_size l)) in
      let digit = λ (p : ℕ) (h : p < n_bits l).
        byte_bit-bytes_of a (n_size l) p (omega (arith, held l)) ∙ s.digits p h in
      omega (
        arith,
        r_bits_vector_weight_lem l e.val0,
        r_bits_vector_weight_lem l e.val1,
        ones_cong (byte_bit e.val0) (is_listed w (t1 l) 0) (r_bits l)
            (λ p h. (cut.1 p h).0 ∙ digit p (omega (arith, twice))),
        ones_cong (byte_bit e.val1) (λ p. is_listed w (t1 l) 0 (r_bits l + p)) (r_bits l)
            (λ p h. (cut.1 p h).1 ∙ digit (r_bits l + p) (omega (arith, twice))),
        ones_add (is_listed w (t1 l) 0) (r_bits l) (r_bits l),
        ap (ones (is_listed w (t1 l) 0)) {x = n_bits l} {y = r_bits l + r_bits l} twice,
        ones_listed w (n_bits l) (t1 l) 0 (from_zero s.sample),
      )
    where
      twice : n_bits l ≡ r_bits l + r_bits l
      twice = unfold n_bits in omega arith

      from_zero : IsSample (n_bits l) w (t1 l) → IsSample (n_bits l) w (0 + t1 l)
      from_zero s = let same : 0 + t1 l ≡ t1 l = omega arith in rw same s

  -- The errors that `function_h` returns, if it does not fail, are two polynomials of `R_BITS` digits,
  -- and T1 of their digits are set. The arrays that it writes have the sizes of the source.
  pub function_h_lem :
      (aes : Aes) (local_e : List ℕ) (mf e : Pair)
      → IsScratch l local_e
      → function_h l aes local_e splitted_e mf ≡ ok e
      → ArePolys l e × (r_bits_vector_weight l e.val0 + r_bits_vector_weight l e.val1 ≡ t1 l)
  unfolding function_h
  function_h_lem aes local_e mf e scratch h =
      let seed = translate_hash_to_seed (sha (2 * r_size l) (pair_bytes l mf)) in
      let generate =
        generate_sparse_rep aes l local_e (replicate (t1 l) 0) (t1 l) (n_bits l)
          (n_padded_size l) in
      let finish : List ℕ × List ℕ × State aes → Result Pair =
        λ d. ok (split_e l splitted_e (bytes_of d.0 (n_size l))) in
      let (s0, started, at, _, _) =
        init_aes_ctr_prf_state-IsAt aes max_aes_invokation seed (omega arith) (omega arith) in
      let second : (generate s0 >>= finish) ≡ ok e =
        ap (λ r. r >>= λ s. generate s >>= finish) (sym started) ∙ h in
      ending (generate s0)
        (generate_sparse_rep_lem aes local_e (t1 l) (n_bits l) (n_padded_size l) l scratch.words
          scratch.room (aligned l) (covered l) (small l) (fits l) (replicate (t1 l) 0) 0 s0 at
          (some_errors l) (length-replicate {A = ℕ} (t1 l) 0))
        second
    where
      ending :
          (result : Result (List ℕ × List ℕ × State aes))
          → IsGenerated aes local_e (t1 l) (n_bits l) (n_padded_size l) result
          → (result >>= λ d. ok (split_e l splitted_e (bytes_of d.0 (n_size l)))) ≡ ok e
          → ArePolys l e × (r_bits_vector_weight l e.val0 + r_bits_vector_weight l e.val1 ≡ t1 l)
      ending result (inl (a, w, t, m, same, sparse, at)) h =
          let found : split_e l splitted_e (bytes_of a (n_size l)) ≡ e = injective (
            ap (λ r. r >>= λ d. ok (split_e l splitted_e (bytes_of d.0 (n_size l)))) (sym same)
            ∙ h) in
          subst
            (λ x.
              ArePolys l x × (r_bits_vector_weight l x.val0 + r_bits_vector_weight l x.val1 ≡ t1 l))
            found
            (
              (split_e_lem l splitted_e (bytes_of a (n_size l)) size (length-bytes_of a (n_size l))
                  (bytes_of-IsWords a (n_size l))).0,
              split_weight a w sparse,
            )
      ending result (inr f) h =
          no_success
            (ap (λ r. r >>= λ d. ok (split_e l splitted_e (bytes_of d.0 (n_size l)))) (sym f) ∙ h)
