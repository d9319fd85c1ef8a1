-- ===== src/Openssl.antt =====
-- gf2x/openssl_utils.c: `ossl_add` and `cyclic_product`, which do the arithmetic of polynomials by
-- OpenSSL's big numbers, and their conversions. The calls of OpenSSL are a parameter; a call that
-- may fail returns an option. `BN_CTX_start` and the clean-up of the context have no effect here.
pub mod Numbers
pub mod Documented
pub mod Convert
pub mod Arithmetic
use bike_modify.Base.{ℕ, ◌+◌, ◌-◌, ◌/◌, ◌%◌, ◌==◌, if◌then◌else◌, Option, none, some}
use bike_modify.Base.{List, length, get_or, set, replicate, for_range, fill}
use bike_modify.Params.{Level, r_bits, r_size, n_size}
use bike_modify.Result.{Error, external_lib_error_openssl, Result, ok, fail, ◌>>=◌}

-- The calls of OpenSSL. The first big number of a call is the one that it writes.
pub record Openssl : Type 1 where
  pub Bignum : Type 0
  pub Context : Type 0
  pub ctx_new : Option Context
  pub ctx_get : Context → Option Bignum × Context
  pub bin2bn : List ℕ → ℕ → Bignum → Option Bignum
  pub num_bytes : Bignum → ℕ
  pub bn2bin : Bignum → Option (List ℕ)
  pub gf2m_add : Bignum → Bignum → Bignum → Option Bignum
  pub set_bit : Bignum → ℕ → Option Bignum
  pub gf2m_mod_mul : Bignum → Bignum → Bignum → Bignum → Context → Option Bignum

-- A call that fails makes its caller fail.
unfoldable pub checked {ℓ} : {A : Type ℓ} → Option A → Result A
checked none = fail external_lib_error_openssl
checked (some x) = ok x

-- The first `n` bytes of `source`, last one first.
unfoldable pub reverse_endian : List ℕ → List ℕ → ℕ → List ℕ
reverse_endian res source n =
    let swapped =
      for_range (n / 2) 0
        (λ i r. set (set r i (get_or source (n - 1 - i) 0)) (n - 1 - i) (get_or source i 0)) res in
    if n % 2 == 1 then set swapped (n / 2) (get_or source (n / 2) 0) else swapped

module _ (l : Level) (o : Openssl) where
  open o use {
    Bignum, Context, ctx_new, ctx_get, bin2bn, num_bytes, bn2bin, gf2m_add, set_bit, gf2m_mod_mul,
  }

  -- `BN_bn2bin` writes the bytes at the start of `be_tmp`.
  unfoldable pub ossl_bn2bin : List ℕ → Bignum → ℕ → Result (List ℕ)
  unfolding checked
  ossl_bn2bin out x size =
      let cleared = fill size 0 (λ j r. 0) out in
      checked (bn2bin x) >>= λ bytes.
      let be_tmp = fill (length bytes) 0 (λ j r. get_or bytes j 0) (replicate (n_size l) 0) in
      ok (reverse_endian cleared be_tmp (num_bytes x))

  unfoldable pub ossl_bin2bn : Bignum → List ℕ → ℕ → Result Bignum
  unfolding checked
  ossl_bin2bn out source size =
      let be_tmp = reverse_endian (replicate (n_size l) 0) source size in
      checked (bin2bn be_tmp size out)

  -- The numbers that `ossl_add` and `cyclic_product` take from the context: `r`, `a` and `b`.
  unfoldable pub three_numbers : Context → Result (Bignum × Bignum × Bignum × Context)
  unfolding checked
  three_numbers ctx =
      let (r, ctx1) = ctx_get ctx in
      let (a, ctx2) = ctx_get ctx1 in
      let (b, ctx3) = ctx_get ctx2 in
      checked r >>= λ r'. checked a >>= λ a'. checked b >>= λ b'. ok (r', a', b', ctx3)

  unfoldable pub ossl_add : List ℕ → List ℕ → List ℕ → Result (List ℕ)
  unfolding checked
  ossl_add res_bin a_bin b_bin = checked ctx_new >>= λ ctx. three_numbers ctx >>= λ numbers.
      ossl_bin2bn numbers.1 a_bin (r_size l) >>= λ a.
      ossl_bin2bn numbers.2 b_bin (r_size l) >>= λ b.
      checked (gf2m_add numbers.0 a b) >>= λ r. ossl_bn2bin res_bin r (r_size l)

  unfoldable pub ossl_cyclic_product : Bignum → Bignum → Bignum → Context → Result Bignum
  unfolding checked
  ossl_cyclic_product r a b bn_ctx =
      let (m, ctx) = ctx_get bn_ctx in
      checked m >>= λ m0. checked (set_bit m0 (r_bits l)) >>= λ m1.
      checked (set_bit m1 0) >>= λ m2. checked (gf2m_mod_mul r a b m2 ctx)

  unfoldable pub cyclic_product : List ℕ → List ℕ → List ℕ → Result (List ℕ)
  unfolding checked
  cyclic_product res_bin a_bin b_bin = checked ctx_new >>= λ ctx. three_numbers ctx >>= λ numbers.
      ossl_bin2bn numbers.1 a_bin (r_size l) >>= λ a.
      ossl_bin2bn numbers.2 b_bin (r_size l) >>= λ b.
      ossl_cyclic_product numbers.0 a b numbers.3 >>= λ r. ossl_bn2bin res_bin r (r_size l)
