-- ===== src/Lib.antt =====
-- BIKE, a key encapsulation mechanism from quasi-cyclic codes, with the black-gray-flip decoder.
--
-- A key pair is a sparse polynomial pair of R_BITS digits and its image; a ciphertext carries an
-- error vector that the decoder finds again from the syndrome and the secret indices.
--
-- The parts, and the file that models each:
--   Params      the constants of the levels 1, 3 and 5 and the macros on them
--               (common/bike_defs.h, common/defs.h); functions of `Level`
--   Utilities   comparisons, masks, scans and weights (common/utilities.h, common/utilities.c)
--   Result      `ret_t` and `bike_errno` (common/error.h); `>>=` is `GUARD`, and an `assert` that does not
--               hold is an outcome of its own
--   Prf         the AES-256 counter-mode generator (prf/aes_ctr_prf.c); a call returns its bytes and
--               the new state
--   Rotate      `rotr_big`, `rotr_small`, `rotate_right` (decode/secure_decode_portable.c)
--   Duplicate   `dup`, `dup_two`, `rotate_right_one` (decode/decode.c)
--   Upc         `bit_sliced_adder`, `bit_slice_full_subtract` (decode/decode.c)
--   FindErr     `find_err1`, `find_err2` (decode/decode.c), which use the three files before
--   Poly        polynomials over two elements as functions, the schoolbook product and the product
--               modulo x^r - 1: the independent description that the arithmetic is compared with
--   Gf2x        addition, multiplication and reduction of polynomials (gf2x/gf2x.h, gf2x/gf2x_mul.c,
--               gf2x/gf2x_portable.c)
--   Sampling    bounded numbers, sparse and uniform vectors (prf/sampling.c, prf/sampling.h,
--               prf/sampling_portable.c), which draw from Prf
--   Decode      `compute_syndrome`, `recompute_syndrome`, `get_threshold`, `decode`
--               (decode/decode.c), which use Gf2x, Duplicate and FindErr; Decode/Reference is the
--               decoder on the digits of polynomials that the loop is compared with
--   Equations   `negate_and`, `and_index` and the equations that the first iteration of `decode` builds
--               (decode/decode.c), which nothing reads: the loop in Decode is without them
--   Openssl     addition and multiplication by the big numbers of OpenSSL (gf2x/openssl_utils.c)
--   Hash        SHA-384 (hash/sha.c, hash/sha384.h); Hash/Standard is the function of FIPS 180-4, with
--               the constants of Hash/Constants from the roots of primes, and shares no definition with
--               the code's model
--   Kem         `crypto_kem_keypair`, `crypto_kem_enc`, `crypto_kem_dec` and their helpers (kem.c)
-- Bits, Word and Bytes are about the digits of numbers, of arrays of 64-bit words and of arrays of
-- bytes; Base passes on the names that the files share, and has C arrays as lists and C loops as
-- `for_range`, `fill` and `fill_pair`. Tests has the results at concrete inputs.
--
-- Numbers are natural numbers with the wrap of C written out. An array is a list; a word array is
-- also read as bytes in the little-endian order of the platforms that the code supports. A function
-- that writes through a pointer returns the new array.
--
-- Parameters. `over x k` is the value of `x << k` on 64 bits for k from 64 on, which C leaves
-- open. `Aes` is the cipher: a key schedule and the encryption of a block of 16 bytes.
-- `Openssl` has the calls of OpenSSL, and `IsDocumented` and `Divides` what the code relies on of them:
-- what their manual says, and that `BN_CTX_get` gives the number 0, which the library does without a
-- word of the manual on it.
--
-- Counts of rounds. `rotr_big` has 11 rounds for an index of at most 9 digits; `bit_scan_reverse`
-- has 64 rounds for a 64-bit value; `full_blocks` has as many rounds as there are bytes to write;
-- the loops of the sampling have 2^34 + 1, more than the draws of 4 bytes that a generator allows.
-- The theorems show that these are enough. `karatzuba` has 12 rounds for lengths of at most 2^10
-- words, which are powers of two. The counters of the decoder have 8 slices at the levels 1 and 3 and
-- 9 at level 5, so that they hold thresholds up to 2^7 and 2^8; the greatest thresholds are 95, 147
-- and 194: at level 3 the comparison of the loop with the reference decoder does not apply.
--
-- Not modelled: the assembly and the vector variants, the instructions of AES,
-- printing, erasing of secrets and measurements, and the programs that make test vectors.
pub mod Base
pub mod Bits
pub mod Word
pub mod Bytes
pub mod Params
pub mod Utilities
pub mod Result
pub mod Prf
pub mod Rotate
pub mod Duplicate
pub mod Upc
pub mod FindErr
pub mod Poly
pub mod Gf2x
pub mod Sampling
pub mod Decode
pub mod Openssl
pub mod Hash
pub mod Equations
pub mod Kem
pub mod Tests
