-- ===== src/Hash/Padding.antt =====
-- `sha` is SHA-384 of the standard: the last blocks that it builds are the rest of the message and the
-- padding.
use native.Mathlib.Nat.{div-eq_of_lt}
use mathlib.Core.List.{append_assoc}
use bike_modify.Base.{
  ℕ, zero, suc, ◌+◌, ◌-◌, ◌*◌, ◌/◌, ◌%◌, ◌^◌, ◌≤◌, ◌<◌, ◌≡◌, refl, sym, ap, ap₂, subst, ◌∙◌, arith,
}
use bike_modify.Base.{
  List, [], ◌∷◌, ◌++◌, length, take, drop, replicate, length-drop, length-replicate, length-append,
  get_or-replicate, get_or-drop, take-append, drop-append, drop-drop, take_whole, replicate_add,
}
use bike_modify.Word.{IsWords}
use bike_modify.Hash.{init_hash, store_word, sha_update, last_length, last_block, sha}
use bike_modify.Hash.Standard.{
  compress, hash_blocks, zeros_after, big_endian, padding, digest_bytes, sha384,
}
use bike_modify.Hash.Compress.{sha_update_lem}
use bike_modify.Hash.Roots.{init_hash_lem, store_word-big_endian, store_words-digest_bytes}

-- The blocks of a message and what stands behind it.
hash_blocks_split :
    (n m : ℕ) (hash msg tail : List ℕ)
    → 128 * n ≤ length msg
    → hash_blocks (n + m) hash (msg ++ tail)
      ≡ hash_blocks m (hash_blocks n hash msg) (drop (128 * n) msg ++ tail)
unfolding hash_blocks
hash_blocks_split zero m hash msg tail h =
    ap₂ (λ k xs. hash_blocks k hash (xs ++ tail)) {x = 0 + m} {y = m} (omega arith)
      (ap (λ k. drop k msg) {x = 0} {y = 128 * 0} (omega arith))
hash_blocks_split (suc n) m hash msg tail h =
    ap (λ k. hash_blocks k hash (msg ++ tail)) {x = suc n + m} {y = suc (n + m)} (omega arith)
    ∙ ap₂ (hash_blocks (n + m)) (ap (compress hash) (take-append 128 msg tail (omega arith)))
        (drop-append 128 msg tail (omega arith))
    ∙ hash_blocks_split n m (compress hash (take 128 msg)) (drop 128 msg) tail
        (omega (arith, length-drop 128 msg))
    ∙ ap
        (λ xs.
          hash_blocks m (hash_blocks n (compress hash (take 128 msg)) (drop 128 msg)) (xs ++ tail))
        (drop-drop (128 * n) 128 msg
          ∙ ap (λ k. drop k msg) {x = 128 + 128 * n} {y = 128 * suc n} (omega arith))

store_word-short : (x : ℕ) → x < 2 ^ 32 → store_word 16 x ≡ replicate 8 0 ++ store_word 8 x
unfolding store_word
store_word-short x h = above (2 ^ 120) (omega arith) (
    above (2 ^ 112) (omega arith) (
      above (2 ^ 104) (omega arith) (
        above (2 ^ 96) (omega arith) (
          above (2 ^ 88) (omega arith) (
            above (2 ^ 80) (omega arith)
              (above (2 ^ 72) (omega arith) (above (2 ^ 64) (omega arith) refl)))))))
  where
    above :
        {xs ys : List ℕ} (k : ℕ)
        → 2 ^ 32 ≤ k
        → xs ≡ ys
        → ◌≡◌ {A = List ℕ} (x / k % 2 ^ 8 ∷ xs) (0 ∷ ys)
    above k g e =
        ap₂ ◌∷◌ (ap (λ t. t % 2 ^ 8) (div-eq_of_lt {n = x} {m = k} (omega arith)) ∙ omega arith) e

length-store_word : (n x : ℕ) → length (store_word n x) ≡ n
unfolding store_word
length-store_word zero x = refl
length-store_word (suc n) x = ap suc (length-store_word n x)

length-big_endian : (n x : ℕ) → length (big_endian n x) ≡ n
length-big_endian n x = ap length (sym (store_word-big_endian n x)) ∙ length-store_word n x

-- The number of blocks.
blocks : (n : ℕ) → (n + (1 + zeros_after n + 16)) / 128 ≡ n / 128 + last_length n / 128
unfolding zeros_after last_length
blocks n = ground arith

length-padding : (n : ℕ) → length (padding n) ≡ 1 + zeros_after n + 16
unfolding padding
length-padding n =
    length-append (128 ∷ replicate (zeros_after n) 0) (big_endian 16 (8 * n))
    ∙ omega (arith, length-big_endian 16 (8 * n), length-replicate {A = ℕ} (zeros_after n) 0)

-- The zeros that the code writes are those of the padding and the upper bytes of the length.
zeros_lem : (n : ℕ) → zeros_after n + 8 ≡ last_length n - 8 - (n % 128 + 1)
unfolding zeros_after last_length
zeros_lem n = ground arith

last_block_lem :
    (msg : List ℕ)
    → length msg * 8 < 2 ^ 32
    → last_block msg (length msg) ≡ drop (128 * (length msg / 128)) msg ++ padding (length msg)
unfolding last_block padding
last_block_lem msg h =
    let n = length msg in
    let z = zeros_after n in
    let word = store_word 8 (8 * n) in
    let rest : take (n % 128) (drop (n / 128 * 128) msg) ≡ drop (128 * (n / 128)) msg =
      ap (λ k. take (n % 128) (drop k msg)) {x = n / 128 * 128} {y = 128 * (n / 128)} (omega arith)
      ∙ take_whole (n % 128) _ (omega (arith, length-drop (128 * (n / 128)) msg)) in
    let zeros : replicate z 0 ++ (replicate 8 0 ++ word)
        ≡ replicate (last_length n - 8 - (n % 128 + 1)) 0 ++ word =
      sym (append_assoc (replicate z 0) (replicate 8 0) word)
      ∙ ap (λ xs. xs ++ word) (replicate_add z 8 0 ∙ ap (λ k. replicate k 0) (zeros_lem n)) in
    let bits : n * 8 % 2 ^ 32 ≡ 8 * n = omega arith in
    append_assoc (take (n % 128) (drop (n / 128 * 128) msg))
      (128 ∷ replicate (last_length n - 8 - (n % 128 + 1)) 0) (store_word 8 (n * 8 % 2 ^ 32))
    ∙ ap₂
        (λ xs k. xs ++ (128 ∷ (replicate (last_length n - 8 - (n % 128 + 1)) 0 ++ store_word 8 k)))
        rest bits
    ∙ ap (λ xs. drop (128 * (n / 128)) msg ++ (128 ∷ xs)) (sym zeros)
    ∙ ap (λ xs. drop (128 * (n / 128)) msg ++ (128 ∷ (replicate z 0 ++ xs)))
        (sym (store_word-short (8 * n) (omega arith)) ∙ store_word-big_endian 16 (8 * n))

append-IsWords : (w : ℕ) (xs ys : List ℕ) → IsWords w xs → IsWords w ys → IsWords w (xs ++ ys)
append-IsWords w [] ys h k i = k i
append-IsWords w (x ∷ xs) ys h k zero = h 0
append-IsWords w (x ∷ xs) ys h k (suc i) = append-IsWords w xs ys (λ j. h (suc j)) k i

store_word-IsWords : (n x : ℕ) → IsWords 8 (store_word n x)
unfolding store_word
store_word-IsWords zero x i = omega arith
store_word-IsWords (suc n) x zero = omega arith
store_word-IsWords (suc n) x (suc i) = store_word-IsWords n x i

padding-IsWords : (n : ℕ) → IsWords 8 (padding n)
unfolding padding
padding-IsWords n =
    append-IsWords 8 (128 ∷ replicate (zeros_after n) 0) (big_endian 16 (8 * n)) first
      (subst (IsWords 8) (store_word-big_endian 16 (8 * n)) (store_word-IsWords 16 (8 * n)))
  where
    first : IsWords 8 (128 ∷ replicate (zeros_after n) 0)
    first zero = omega arith
    first (suc i) = rw (get_or-replicate {A = ℕ} (zeros_after n) 0 i) (omega arith)

abbrev AreBelow : ℕ → List ℕ → Type 0
AreBelow b [] = Unit
AreBelow b (x ∷ xs) = (x < b) × AreBelow b xs

below-IsWords : (xs : List ℕ) → AreBelow (2 ^ 64) xs → IsWords 64 xs
below-IsWords [] h i = omega arith
below-IsWords (x ∷ xs) h zero = h.0
below-IsWords (x ∷ xs) h (suc i) = below-IsWords xs h.1 i

init_hash-IsWords : IsWords 64 init_hash
init_hash-IsWords = below-IsWords init_hash (omega arith)

-- `sha` on a message of bytes whose number of bits is below 2^32 is SHA-384 as FIPS 180-4 states it,
-- with the constants from the roots of primes.
pub sha_lem :
    (msg : List ℕ) → IsWords 8 msg → length msg * 8 < 2 ^ 32 → sha (length msg) msg ≡ sha384 msg
unfolding sha sha384
sha_lem msg words h =
    let n = length msg in
    let start = sha_update_lem (n / 128) init_hash msg init_hash-IsWords words in
    let last = last_block_lem msg h in
    let last_words : IsWords 8 (last_block msg n) = rw last (
      append-IsWords 8 (drop (128 * (n / 128)) msg) (padding n)
        (λ i. rw (get_or-drop (128 * (n / 128)) msg i 0) (words (128 * (n / 128) + i)))
        (padding-IsWords n)) in
    let end =
      sha_update_lem (last_length n / 128) (sha_update (n / 128) init_hash msg) (last_block msg n)
        start.1 last_words in
    store_words-digest_bytes _
    ∙ ap digest_bytes (
        end.0
        ∙ ap₂ (hash_blocks (last_length n / 128)) start.0 last
        ∙ sym (
            hash_blocks_split (n / 128) (last_length n / 128) init_hash msg (padding n)
              (omega arith))
        ∙ ap (λ k. hash_blocks k init_hash (msg ++ padding n))
            (sym (
              ap (λ k. k / 128) (length-append msg (padding n) ∙ ap (λ k. n + k) (length-padding n))
              ∙ blocks n))
        ∙ ap (λ s. hash_blocks (length (msg ++ padding n) / 128) s (msg ++ padding n))
            init_hash_lem)
