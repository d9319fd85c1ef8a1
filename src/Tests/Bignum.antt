-- ===== src/Tests/Bignum.antt =====
-- A library of big numbers that are natural numbers, for the tests of Openssl.
use bike_modify.Base.{ℕ, ◌^◌, refl, arith}
use bike_modify.Base.{true, some, bit_or, bit_xor}
use bike_modify.Openssl.{Openssl}
use bike_modify.Openssl.Numbers.{be_value}
use bike_modify.Openssl.Documented.{IsDocumented, Divides, given}
use bike_modify.Tests.Digits.{
  bytes_needed, to_bytes, bytes_needed_holds, bytes_needed_least, length-to_bytes, to_bytes-IsWords,
  be_value-to_bytes,
}
use bike_modify.Tests.Division.{carryless, divide, degree, product_lem}

abbrev pub plain : Openssl
plain = record {
  Bignum = ℕ;
  Context = Unit;
  ctx_new = some tt;
  ctx_get = λ c. (some 0, c);
  bin2bn = λ bytes n out. some (be_value bytes n);
  num_bytes = λ x. bytes_needed x x;
  bn2bin = λ x. some (to_bytes (bytes_needed x x) x);
  gf2m_add = λ r a b. some (bit_xor a b);
  set_bit = λ x n. some (bit_or x (2 ^ n));
  gf2m_mod_mul = λ r a b m c. let x = carryless a a b in some (divide x x m (degree m m)).1;
}

unfoldable pub plain-IsDocumented : IsDocumented plain true
plain-IsDocumented = record {
  value = λ x. x;
  ctx_new_lem = given tt;
  ctx_get_lem = λ c. given refl;
  bin2bn_lem = λ bytes n out w h. given refl;
  num_bytes_holds = λ x. bytes_needed_holds x x (omega arith);
  num_bytes_least = λ x n h. bytes_needed_least x x n h;
  bn2bin_lem = λ x. given (
    length-to_bytes (bytes_needed x x) x,
    to_bytes-IsWords (bytes_needed x x) x,
    be_value-to_bytes (bytes_needed x x) x (bytes_needed_holds x x (omega arith)),
  );
  gf2m_add_lem = λ r a b. given refl;
  set_bit_lem = λ x n. given refl;
}

pub plain-Divides : Divides plain true plain-IsDocumented
unfolding plain-IsDocumented
plain-Divides = record {
  gf2m_mod_mul_lem = λ r a b m c d lead above. given (product_lem a b m d lead above);
}
