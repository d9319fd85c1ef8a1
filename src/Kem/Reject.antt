-- ===== src/Kem/Reject.antt =====
-- Implicit rejection: what `crypto_kem_dec` returns, accepted or not.
use bike_modify.Base.{
  ℕ, zero, suc, ◌+◌, ◌*◌, ◌%◌, ◌^◌, ◌≤◌, ◌<◌, ◌≡◌, refl, sym, ap, ap₂, ◌∙◌, arith, List, [], ◌∷◌,
  ◌++◌, length, get_or, take, drop, get_or_ext, length-append, length-take,
}
use bike_modify.Base.{
  Bool, true, false, ◌&&◌, ◌==◌, if◌then◌else◌, to_nat, fill_inside, length-fill, replicate,
  length-replicate,
}
use bike_modify.Base.{bit_and, bit_or, lt_or_le, inl, inr, get_or_past}
use bike_modify.Word.{
  complement, bit_and-ones, bit_and-zero, bit_and-lt, bit_or-zero, bit_or-zero-first, IsWords,
}
use bike_modify.Bits.{bit, bit_ext, bit-and}
use bike_modify.Params.{Level, r_size, r_qw, t1}
use bike_modify.Utilities.{secure_cmp, secure_cmp32, r_bits_vector_weight, secure_l32_mask}
use bike_modify.Utilities.Compare.{secure_l32_mask_lem, secure_cmp_lem}
use bike_modify.Result.{ok, bind_cong, ◌>>=◌}
use bike_modify.Prf.{Aes}
use bike_modify.Hash.{sha, store_word, store_words}
use bike_modify.FindErr.{Pair}
use bike_modify.Decode.{SecretKey, decode, compute_syndrome}
use bike_modify.Kem.{
  get_ss, pair_bytes, success_cond, select_ss, decapsulated, translate_hash_to_ss, crypto_kem_dec,
  decapsulate_with, reencrypt,
}

module _ (l : Level) where
  -- The conditions of `crypto_kem_dec`.
  abbrev pub is_accepted : Bool → Pair → Pair → Bool
  is_accepted dec_ret e e2 =
      (dec_ret
        && (t1 l == (r_bits_vector_weight l e.val0 + r_bits_vector_weight l e.val1) % 2 ^ 32))
      && (secure_cmp (pair_bytes l e) (pair_bytes l e2) (2 * r_size l) == 1)

  and_tests :
      (a b c : Bool) → bit_and (bit_and (to_nat a) (to_nat b)) (to_nat c) ≡ to_nat ((a && b) && c)
  and_tests true true true = refl
  and_tests true true false = refl
  and_tests true false true = refl
  and_tests true false false = refl
  and_tests false true true = refl
  and_tests false true false = refl
  and_tests false false true = refl
  and_tests false false false = refl

  same_test : (a b : ℕ) → secure_cmp32 a b ≡ to_nat (a == b)
  unfolding secure_cmp32
  same_test a b = ground arith

  truth : (n : ℕ) → n ≤ 1 → n ≡ to_nat (n == 1)
  truth n h = ground arith

  success_cond_lem :
      (aes : Aes) (dec_ret : Bool) (e e2 : Pair)
      → success_cond l aes dec_ret e e2 ≡ to_nat (is_accepted dec_ret e e2)
  unfolding success_cond
  success_cond_lem aes dec_ret e e2 =
      ap₂ (λ (x y : ℕ). bit_and (bit_and (to_nat dec_ret) x) y)
        (same_test (t1 l)
          ((r_bits_vector_weight l e.val0 + r_bits_vector_weight l e.val1) % 2 ^ 32))
        (truth (secure_cmp (pair_bytes l e) (pair_bytes l e2) (2 * r_size l))
          (secure_cmp_lem (pair_bytes l e) (pair_bytes l e2) (2 * r_size l)).1)
      ∙ and_tests dec_ret _ _

-- The bytes of a hash.
store_word-IsWords : (n x : ℕ) → IsWords 8 (store_word n x) × (length (store_word n x) ≡ n)
unfolding store_word
store_word-IsWords zero x = (λ i. omega arith, refl)
store_word-IsWords (suc n) x =
    let rest = store_word-IsWords n x in (cons-IsWords _ _ (omega arith) rest.0, ap suc rest.1)
  where
    cons-IsWords : (y : ℕ) (ys : List ℕ) → y < 2 ^ 8 → IsWords 8 ys → IsWords 8 (y ∷ ys)
    cons-IsWords y ys h w zero = h
    cons-IsWords y ys h w (suc i) = w i

append-IsWords : (xs ys : List ℕ) → IsWords 8 xs → IsWords 8 ys → IsWords 8 (xs ++ ys)
append-IsWords [] ys v w i = w i
append-IsWords (x ∷ xs) ys v w zero = v 0
append-IsWords (x ∷ xs) ys v w (suc i) = append-IsWords xs ys (λ j. v (suc j)) w i

take-IsWords : (n : ℕ) (xs : List ℕ) → IsWords 8 xs → IsWords 8 (take n xs)
take-IsWords zero xs w i = omega arith
take-IsWords (suc n) [] w i = omega arith
take-IsWords (suc n) (x ∷ xs) w zero = w 0
take-IsWords (suc n) (x ∷ xs) w (suc i) = take-IsWords n xs (λ j. w (suc j)) i

store_words-IsWords :
    (n : ℕ) (ws : List ℕ) → IsWords 8 (store_words n ws) × (length (store_words n ws) ≡ 8 * n)
unfolding store_words
store_words-IsWords zero ws = (λ i. omega arith, omega arith)
store_words-IsWords (suc n) ws =
    let first = store_word-IsWords 8 (get_or ws 0 0) in
    let rest = store_words-IsWords n (drop 1 ws) in
    (
      append-IsWords (store_word 8 (get_or ws 0 0)) (store_words n (drop 1 ws)) first.0 rest.0,
      omega (
        arith,
        length-append (store_word 8 (get_or ws 0 0)) (store_words n (drop 1 ws)),
        first.1,
        rest.1,
      ),
    )

-- A shared secret has 32 bytes.
pub get_ss-IsWords :
    (l : Level) (in0 in1 : List ℕ) (ct : Pair)
    → IsWords 8 (get_ss l in0 in1 ct) × (length (get_ss l in0 in1 ct) ≡ 32)
unfolding get_ss translate_hash_to_ss sha
get_ss-IsWords l in0 in1 ct = (
  take-IsWords 32 (store_words 6 _) (store_words-IsWords 6 _).0,
  omega (arith, length-take 32 (store_words 6 _), (store_words-IsWords 6 _).1),
)

bit_and_comm : (x y : ℕ) → x < 2 ^ 8 → y < 2 ^ 8 → bit_and x y ≡ bit_and y x
bit_and_comm x y p q =
    bit_ext 8 _ _ (bit_and-lt 8 x y p) (bit_and-lt 8 y x q)
      (λ i h. bit-and i x y ∙ swap (bit x i) (bit y i) ∙ sym (bit-and i y x))
  where
    swap : (a b : Bool) → (a && b) ≡ (b && a)
    swap a b = ground arith

-- A byte of the choice.
select_byte :
    (c : Bool) (x y : ℕ)
    → x < 2 ^ 8
    → y < 2 ^ 8
    → bit_or (bit_and (if c then 255 else 0) x) (bit_and (complement 8 (if c then 255 else 0)) y)
      ≡ (if c then x else y)
select_byte true x y p q =
    ap₂ bit_or (bit_and_comm 255 x (omega arith) p ∙ bit_and-ones 8 x p)
      (bit_and_comm 0 y (omega arith) q ∙ bit_and-zero y)
    ∙ bit_or-zero x
select_byte false x y p q =
    ap₂ bit_or (bit_and_comm 0 x (omega arith) p ∙ bit_and-zero x)
      (bit_and_comm 255 y (omega arith) q ∙ bit_and-ones 8 y q)
    ∙ zero_or y
  where
    zero_or : (z : ℕ) → bit_or 0 z ≡ z
    zero_or z = bit_or-zero-first z

module _ (l : Level) (aes : Aes) where
  select_ss_lem :
      (c : Bool) (xs ys : List ℕ)
      → IsWords 8 xs
      → IsWords 8 ys
      → length xs ≡ 32
      → length ys ≡ 32
      → select_ss l aes (if c then 255 else 0) xs ys ≡ (if c then xs else ys)
  unfolding select_ss
  select_ss_lem c xs ys p q h k =
      get_or_ext 0 _ _ (length-fill {A = ℕ} 0 _ 32 0 (replicate 32 0) ∙ sizes c) λ i.
        elim (lt_or_le i 32) [
          | inl small ↦
              fill_inside 0 _ (λ j us vs a. refl) 32 0 (replicate 32 0) i (omega arith)
                (omega arith) (omega (arith, length-replicate {A = ℕ} 32 0))
              ∙ select_byte c (get_or xs i 0) (get_or ys i 0) (p i) (q i)
              ∙ inside c i
          | inr big ↦
              get_or_past _ i 0 (
                rw (length-fill {A = ℕ} 0 _ 32 0 (replicate 32 0))
                  (omega (arith, length-replicate {A = ℕ} 32 0)))
              ∙ sym (get_or_past (if c then xs else ys) i 0 (omega (arith, sizes c)))
        ]
    where
      sizes : (b : Bool) → 32 ≡ length (if b then xs else ys)
      sizes true = sym h
      sizes false = sym k

      inside :
          (b : Bool) (i : ℕ)
          → (if b then get_or xs i 0 else get_or ys i 0) ≡ get_or (if b then xs else ys) i 0
      inside true i = refl
      inside false i = refl

  mask_lem :
      (c : Bool) → complement 32 (secure_l32_mask 0 (to_nat c)) % 2 ^ 8 ≡ (if c then 255 else 0)
  mask_lem true = ground (arith, secure_l32_mask_lem 0 1 (omega arith) (omega arith))
  mask_lem false = ground (arith, secure_l32_mask_lem 0 0 (omega arith) (omega arith))

  decapsulated_lem :
      (ct : Pair) (sk : SecretKey) (dec : Pair × Bool) (re : Pair × Pair)
      → decapsulated l aes ct sk dec re ≡ (
          if is_accepted l dec.1 dec.0 re.1
          then get_ss l re.0.val0 re.0.val1 ct
          else get_ss l sk.sigma0 sk.sigma1 ct)
  unfolding decapsulated
  decapsulated_lem ct sk dec re =
      let good = get_ss-IsWords l re.0.val0 re.0.val1 ct in
      let bad = get_ss-IsWords l sk.sigma0 sk.sigma1 ct in
      ap
        (λ (m : ℕ).
          select_ss l aes m (get_ss l re.0.val0 re.0.val1 ct) (get_ss l sk.sigma0 sk.sigma1 ct))
        (ap (λ (t : ℕ). complement 32 (secure_l32_mask 0 t) % 2 ^ 8)
            (success_cond_lem l aes dec.1 dec.0 re.1)
          ∙ mask_lem (is_accepted l dec.1 dec.0 re.1))
      ∙ select_ss_lem (is_accepted l dec.1 dec.0 re.1) _ _ good.0 bad.0 good.1 bad.1

  pub decapsulate_with_lem :
      (local_e : List ℕ) (ce e2 ct : Pair) (sk : SecretKey) (dec : Pair × Bool)
      → decapsulate_with l aes local_e ce e2 ct sk dec ≡ (
          reencrypt l aes local_e ce e2 dec.0 ct >>= λ re. ok (
            if is_accepted l dec.1 dec.0 re.1
            then get_ss l re.0.val0 re.0.val1 ct
            else get_ss l sk.sigma0 sk.sigma1 ct))
  unfolding decapsulate_with
  decapsulate_with_lem local_e ce e2 ct sk dec =
      bind_cong _ _ _ (λ re. ap ok (decapsulated_lem ct sk dec re))

  -- `crypto_kem_dec` fails only where `reencrypt` does. If decoding succeeded, the errors have weight
  -- T1 and the errors that the hash gives again are the same, the shared secret is the key of the
  -- polynomials that `reencrypt` computes; else it is the key of the secret polynomials `sigma0` and
  -- `sigma1`.
  pub crypto_kem_dec_lem :
      (over : ℕ → ℕ → ℕ) (local_e : List ℕ) (ce e2 ct : Pair) (sk : SecretKey)
      → let dec = decode l over ct sk (compute_syndrome l (replicate (3 * r_qw l) 0) ct sk) in
        crypto_kem_dec l aes over local_e ce e2 ct sk ≡ (
          reencrypt l aes local_e ce e2 dec.0 ct >>= λ re. ok (
            if is_accepted l dec.1 dec.0 re.1
            then get_ss l re.0.val0 re.0.val1 ct
            else get_ss l sk.sigma0 sk.sigma1 ct))
  unfolding crypto_kem_dec
  crypto_kem_dec_lem over local_e ce e2 ct sk = decapsulate_with_lem local_e ce e2 ct sk _
