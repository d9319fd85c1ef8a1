-- ===== src/Openssl/Documented.antt =====
-- What the code relies on of OpenSSL's calls: what their manual pages state, and that a number from a
-- context is 0, which is what the library does and not in the page of `BN_CTX_get`.
use bike_modify.Base.{ℕ, ◌*◌, ◌^◌, ◌≤◌, ◌<◌, ◌≡◌, bit_or, bit_xor, List, length}
use bike_modify.Base.{Bool, true, false, xor, Option, none, some}
use bike_modify.Bits.{bit}
use bike_modify.Word.{IsWords}
use bike_modify.Poly.Remainder.{coefficient}
use bike_modify.Result.{external_lib_error_openssl, Result, ok, fail, ◌>>=◌}
use bike_modify.Openssl.{Openssl, checked}
use bike_modify.Openssl.Numbers.{be_value}

-- A call gives a value with `P`; it may fail, unless the library is reliable: it has all the memory
-- that it asks for.
pub data Gives {ℓ κ} {A : Type ℓ} (reliable : Bool) (P : A → Type κ) : Option A → Type (ℓ ⊔ κ) where
  given : {x : A} → P x → Gives reliable P (some x)
  missing : reliable ≡ false → Gives reliable P none

-- A function of the code returns a value with `P`, or the error of the library.
pub data Outcome {ℓ κ} {A : Type ℓ} (reliable : Bool) (P : A → Type κ)
    : Result A → Type (ℓ ⊔ κ) where
  done : {x : A} → P x → Outcome reliable P (ok x)
  failed : reliable ≡ false → Outcome reliable P (fail external_lib_error_openssl)

module _ {ℓ κ} {A : Type ℓ} {reliable : Bool} {P : A → Type κ} where
  pub checked-Outcome : {r : Option A} → Gives reliable P r → Outcome reliable P (checked r)
  unfolding checked
  checked-Outcome (given p) = done p
  checked-Outcome (missing e) = failed e

  pub Outcome-then {ℓ' κ'} :
      {B : Type ℓ'} {Q : B → Type κ'} {r : Result A} {f : A → Result B}
      → Outcome reliable P r
      → ((x : A) → P x → Outcome reliable Q (f x))
      → Outcome reliable Q (r >>= f)
  Outcome-then (done p) k = k _ p
  Outcome-then (failed e) k = failed e

  pub Outcome-map {κ'} :
      {Q : A → Type κ'} {r : Result A}
      → Outcome reliable P r
      → ((x : A) → P x → Q x)
      → Outcome reliable Q r
  Outcome-map (done p) k = done (k _ p)
  Outcome-map (failed e) k = failed e

-- The numbers of the library, and its calls but the product.
pub record IsDocumented (o : Openssl) (reliable : Bool) : Type 0 where
  pub value : o.Bignum → ℕ
  pub ctx_new_lem : Gives reliable (λ (c : o.Context). Unit {0}) o.ctx_new
  -- `BN_CTX_get` sets the number that it gives to 0. `ossl_cyclic_product` relies on it: it sets two
  -- digits of such a number and clears none.
  pub ctx_get_lem : (c : o.Context) → Gives reliable (λ x. value x ≡ 0) (o.ctx_get c).0
  pub bin2bn_lem :
      (bytes : List ℕ) (n : ℕ) (out : o.Bignum)
      → IsWords 8 bytes
      → n ≤ length bytes
      → Gives reliable (λ x. value x ≡ be_value bytes n) (o.bin2bn bytes n out)
  -- The least number of bytes that hold the number.
  pub num_bytes_holds : (x : o.Bignum) → value x < 2 ^ (8 * o.num_bytes x)
  pub num_bytes_least : (x : o.Bignum) (n : ℕ) → value x < 2 ^ (8 * n) → o.num_bytes x ≤ n
  pub bn2bin_lem :
      (x : o.Bignum)
      → Gives reliable
          (λ bytes.
            (length bytes ≡ o.num_bytes x)
            × IsWords 8 bytes
            × (be_value bytes (o.num_bytes x) ≡ value x))
          (o.bn2bin x)
  pub gf2m_add_lem :
      (r a b : o.Bignum)
      → Gives reliable (λ x. value x ≡ bit_xor (value a) (value b)) (o.gf2m_add r a b)
  pub set_bit_lem :
      (x : o.Bignum) (n : ℕ)
      → Gives reliable (λ y. value y ≡ bit_or (value x) (2 ^ n)) (o.set_bit x n)

-- The product modulo a polynomial `m` of degree `d`: for some quotient the product of the operands is
-- that of the quotient and `m` with the result added, and the degree of the result is below `d`.
pub record Divides (o : Openssl) (reliable : Bool) (s : IsDocumented o reliable) : Type 0 where
  pub gf2m_mod_mul_lem :
      (r a b m : o.Bignum) (c : o.Context) (d : ℕ)
      → bit (s.value m) d ≡ true
      → ((p : ℕ) → d < p → bit (s.value m) p ≡ false)
      → Gives reliable
          (λ x.
            ((p : ℕ) → d ≤ p → bit (s.value x) p ≡ false)
            × (q : ℕ) × ((p : ℕ)
                → coefficient (bit (s.value a)) (bit (s.value b)) p
                  ≡ xor (coefficient (bit q) (bit (s.value m)) p) (bit (s.value x) p)))
          (o.gf2m_mod_mul r a b m c)
