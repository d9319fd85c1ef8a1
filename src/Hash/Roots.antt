-- ===== src/Hash/Roots.antt =====
-- The constants, the words and the bytes of the code are those of the standard.
use native.Mathlib.Nat.{div-div-eq-div-mul}
use mathlib.Core.List.{append-nil}
use bike_modify.Base.{ℕ, zero, suc, ◌+◌, ◌*◌, ◌/◌, ◌%◌, ◌^◌, ◌≡◌, refl, sym, ap, ap₂, ◌∙◌, arith}
use bike_modify.Base.{List, [], ◌∷◌, ◌++◌, get_or, drop, get_or-drop, drop-drop}
use bike_modify.Word.{pow_byte}
use bike_modify.Hash.{init_hash, k_words, load_word, store_word, store_words}
use bike_modify.Hash.Constants.{root_from, fraction, initial_hash, constants}
use bike_modify.Hash.Standard.{message_word, big_endian, digest_bytes}

pub init_hash_lem : init_hash ≡ initial_hash
unfolding initial_hash fraction root_from
init_hash_lem = refl

pub k_words_lem : k_words ≡ constants
unfolding constants fraction root_from
k_words_lem = refl

pub load_word-message_word :
    (block : List ℕ) (t : ℕ) → load_word 8 block (8 * t) ≡ message_word block t
unfolding load_word message_word
load_word-message_word block t =
    omega (arith, ap (λ k. get_or block k 0) {x = 8 * t + 0} {y = 8 * t} (omega arith))

-- The last byte of a number is its remainder.
store_word_last : (n x : ℕ) → store_word (suc n) x ≡ store_word n (x / 256) ++ (x % 256 ∷ [])
unfolding store_word
store_word_last zero x = ap (λ b. b ∷ []) {x = x / 2 ^ (8 * 0) % 2 ^ 8} {y = x % 256} (omega arith)
store_word_last (suc n) x =
    ap₂ ◌∷◌
      (ap (λ k. k % 2 ^ 8)
        (ap (λ k. x / k) (pow_byte n) ∙ sym (div-div-eq-div-mul x 256 (2 ^ (8 * n)))))
      (store_word_last n x)

pub store_word-big_endian : (n x : ℕ) → store_word n x ≡ big_endian n x
unfolding big_endian
store_word-big_endian zero x = unfold store_word in refl
store_word-big_endian (suc n) x =
    store_word_last n x ∙ ap (λ xs. xs ++ (x % 256 ∷ [])) (store_word-big_endian n (x / 256))

store_words-drop :
    (n i : ℕ) (hash : List ℕ)
    → store_words (suc n) (drop i hash)
      ≡ big_endian 8 (get_or hash i 0) ++ store_words n (drop (i + 1) hash)
unfolding store_words
store_words-drop n i hash =
    ap₂ (λ x xs. x ++ store_words n xs)
      (ap (store_word 8)
          (get_or-drop i hash 0 0 ∙ ap (λ k. get_or hash k 0) {x = i + 0} {y = i} (omega arith))
        ∙ store_word-big_endian 8 (get_or hash i 0))
      (drop-drop 1 i hash)

pub store_words-digest_bytes : (hash : List ℕ) → store_words 6 hash ≡ digest_bytes hash
unfolding digest_bytes
store_words-digest_bytes hash =
    store_words-drop 5 0 hash
    ∙ ap (λ xs. word 0 ++ xs)
        (store_words-drop 4 1 hash
          ∙ ap (λ xs. word 1 ++ xs)
              (store_words-drop 3 2 hash
                ∙ ap (λ xs. word 2 ++ xs)
                    (store_words-drop 2 3 hash
                      ∙ ap (λ xs. word 3 ++ xs)
                          (store_words-drop 1 4 hash
                            ∙ ap (λ xs. word 4 ++ xs)
                                (store_words-drop 0 5 hash
                                  ∙ unfold store_words in append-nil (word 5))))))
  where
    word : ℕ → List ℕ
    word i = big_endian 8 (get_or hash i 0)
