-- ===== src/Hash/Standard.antt =====
-- SHA-384 as FIPS 180-4 states it, on messages of whole bytes, on its own definitions:
-- no name of the code's model is used.
use bike_modify.Base.{ℕ, zero, suc, ◌+◌, ◌-◌, ◌*◌, ◌/◌, ◌%◌, ◌^◌, bit_and, bit_or, bit_xor}
use bike_modify.Base.{
  List, [], ◌∷◌, ◌++◌, length, get_or, take, drop, replicate, ltb, if◌then◌else◌,
}
use bike_modify.Word.{◌>>>◌, shl, complement}
use bike_modify.Hash.Constants.{initial_hash, constants}

-- The functions on words of 64 digits.
unfoldable pub rotated : ℕ → ℕ → ℕ
rotated x n = bit_or (x >>> n) (shl 64 x (64 - n))

unfoldable pub choose : ℕ → ℕ → ℕ → ℕ
choose x y z = bit_xor (bit_and x y) (bit_and (complement 64 x) z)

unfoldable pub majority : ℕ → ℕ → ℕ → ℕ
majority x y z = bit_xor (bit_xor (bit_and x y) (bit_and x z)) (bit_and y z)

unfoldable pub sum0 : ℕ → ℕ
sum0 x = bit_xor (bit_xor (rotated x 28) (rotated x 34)) (rotated x 39)

unfoldable pub sum1 : ℕ → ℕ
sum1 x = bit_xor (bit_xor (rotated x 14) (rotated x 18)) (rotated x 41)

unfoldable pub sigma0 : ℕ → ℕ
sigma0 x = bit_xor (bit_xor (rotated x 1) (rotated x 8)) (x >>> 7)

unfoldable pub sigma1 : ℕ → ℕ
sigma1 x = bit_xor (bit_xor (rotated x 19) (rotated x 61)) (x >>> 6)

-- Word `t` of a block: 8 bytes, the first one the highest.
unfoldable pub message_word : List ℕ → ℕ → ℕ
message_word block t =
    get_or block (8 * t) 0 * 2 ^ 56
    + get_or block (8 * t + 1) 0 * 2 ^ 48
    + get_or block (8 * t + 2) 0 * 2 ^ 40
    + get_or block (8 * t + 3) 0 * 2 ^ 32
    + get_or block (8 * t + 4) 0 * 2 ^ 24
    + get_or block (8 * t + 5) 0 * 2 ^ 16
    + get_or block (8 * t + 6) 0 * 2 ^ 8
    + get_or block (8 * t + 7) 0

-- The `n` bytes of a number, the highest first.
unfoldable pub big_endian : ℕ → ℕ → List ℕ
big_endian zero x = []
big_endian (suc n) x = big_endian n (x / 256) ++ (x % 256 ∷ [])

-- The first `t` words of the message schedule, the last one first.
unfoldable pub message_words : List ℕ → ℕ → List ℕ
message_words block zero = []
message_words block (suc t) =
    let w = message_words block t in
    (if ltb t 16
      then message_word block t
      else (sigma1 (get_or w 1 0) + get_or w 6 0 + sigma0 (get_or w 14 0) + get_or w 15 0) % 2 ^ 64)
    ∷ w

-- The working variables.
pub record Working : Type 0 where
  pub a : ℕ
  pub b : ℕ
  pub c : ℕ
  pub d : ℕ
  pub e : ℕ
  pub f : ℕ
  pub g : ℕ
  pub h : ℕ

unfoldable pub working_step : ℕ → ℕ → Working → Working
working_step k w v =
    let t1 = (v.h + sum1 v.e + choose v.e v.f v.g + k + w) % 2 ^ 64 in
    let t2 = (sum0 v.a + majority v.a v.b v.c) % 2 ^ 64 in
    record {
      a = (t1 + t2) % 2 ^ 64;
      b = v.a;
      c = v.b;
      d = v.c;
      e = (v.d + t1) % 2 ^ 64;
      f = v.e;
      g = v.f;
      h = v.g;
    }

unfoldable pub working_at : List ℕ → Working → ℕ → Working
working_at block start zero = start
working_at block start (suc t) =
    working_step (get_or constants t 0) (get_or (message_words block (suc t)) 0 0)
      (working_at block start t)

-- One block of 128 bytes.
unfoldable pub compress : List ℕ → List ℕ → List ℕ
compress hash block =
    let q = λ (i : ℕ). get_or hash i 0 in
    let start : Working = record {
      a = q 0;
      b = q 1;
      c = q 2;
      d = q 3;
      e = q 4;
      f = q 5;
      g = q 6;
      h = q 7;
    } in
    let v = working_at block start 80 in
    (q 0 + v.a) % 2 ^ 64
    ∷ (q 1 + v.b) % 2 ^ 64
    ∷ (q 2 + v.c) % 2 ^ 64
    ∷ (q 3 + v.d) % 2 ^ 64
    ∷ (q 4 + v.e) % 2 ^ 64
    ∷ (q 5 + v.f) % 2 ^ 64
    ∷ (q 6 + v.g) % 2 ^ 64
    ∷ (q 7 + v.h) % 2 ^ 64
    ∷ []

-- `n` blocks.
unfoldable pub hash_blocks : ℕ → List ℕ → List ℕ → List ℕ
hash_blocks zero hash msg = hash
hash_blocks (suc n) hash msg = hash_blocks n (compress hash (take 128 msg)) (drop 128 msg)

-- The zeros that fill the last block up to the 16 bytes of the length.
unfoldable pub zeros_after : ℕ → ℕ
zeros_after n = (239 - n % 128) % 128

-- What stands behind the message: the digit 1, zeros and the number of digits, in 16 bytes.
unfoldable pub padding : ℕ → List ℕ
padding n = (128 ∷ replicate (zeros_after n) 0) ++ big_endian 16 (8 * n)

-- The digest: the first 6 of the 8 words.
unfoldable pub digest_bytes : List ℕ → List ℕ
digest_bytes hash =
    let word = λ (i : ℕ). big_endian 8 (get_or hash i 0) in
    word 0 ++ (word 1 ++ (word 2 ++ (word 3 ++ (word 4 ++ word 5))))

unfoldable pub sha384 : List ℕ → List ℕ
sha384 msg =
    let whole = msg ++ padding (length msg) in
    digest_bytes (hash_blocks (length whole / 128) initial_hash whole)
