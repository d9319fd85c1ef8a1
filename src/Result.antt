-- ===== src/Result.antt =====
-- common/error.h: `SUCCESS` with what a function leaves in its out parameters, or `FAIL` with the
-- value of `bike_errno`. The out parameters of a call that fails are not used by its callers.

use bike_modify.Base.{◌≡◌, refl, Bool, true, false}

pub data Error : Type 0 where
  error_weight_is_not_t decoding_failure aes_ctr_prf_init_fail aes_over_used
        external_lib_error_openssl :
      Error

pub data Result {ℓ} (A : Type ℓ) : Type ℓ where
  ok : A → Result A
  fail : Error → Result A
  -- A loop of the model used up the rounds that it is allowed.
  out_of_rounds : Result A
  -- An `assert` of the code stops the program.
  assertion_failed : Result A

-- `GUARD(x)`: a call that fails makes its caller fail.
infixl 5 ◌>>=◌ ◌>>◌
abbrev pub ◌>>=◌ {ℓ κ} : {A : Type ℓ} {B : Type κ} → Result A → (A → Result B) → Result B
ok a >>= f = f a
fail e >>= f = fail e
out_of_rounds >>= f = out_of_rounds
assertion_failed >>= f = assertion_failed

abbrev pub ◌>>◌ {ℓ} : {B : Type ℓ} → Result (Unit {0}) → Result B → Result B
m >> k = m >>= λ _. k

-- `assert` of the C library, which the build leaves on.
abbrev pub assert : Bool → Result (Unit {0})
assert true = ok tt
assert false = assertion_failed

pub bind_cong {ℓ κ} :
    {A : Type ℓ} {B : Type κ} (r : Result A) (f g : A → Result B)
    → ((a : A) → f a ≡ g a)
    → (r >>= f) ≡ (r >>= g)
bind_cong (ok a) f g h = h a
bind_cong (fail e) f g h = refl
bind_cong out_of_rounds f g h = refl
bind_cong assertion_failed f g h = refl

-- Three calls in a row, the first two of which are a function of their own.
pub bind_nested {ℓ κ μ} :
    {X : Type ℓ} {Y : Type κ} {Z : Type μ} (first : Result X) (then : X → Result Y)
    (last : Y → Result Z)
    → (first >>= λ x. then x >>= last) ≡ (first >>= then >>= last)
bind_nested out_of_rounds then last = refl
bind_nested assertion_failed then last = refl
bind_nested (fail c) then last = refl
bind_nested (ok x) then last = refl
