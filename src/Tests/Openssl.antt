-- ===== src/Tests/Openssl.antt =====
-- Inputs for the arithmetic by a library of big numbers that never fails.
use bike_modify.Base.{◌≡◌, refl, arith, [], ◌∷◌}
use bike_modify.Base.{true, for_range}
use bike_modify.Params.{level1, r_size}
use bike_modify.Result.{◌>>=◌}
use bike_modify.Gf2x.{gf2x_add}
use bike_modify.Decode.{mod_mul}
use bike_modify.Openssl.{reverse_endian, ossl_bin2bn, ossl_bn2bin, ossl_add, cyclic_product}
use bike_modify.Openssl.Convert.{ossl_bn2bin-ossl_bin2bn}
use bike_modify.Openssl.Documented.{Outcome}
use bike_modify.Openssl.Arithmetic.{ossl_add_lem, cyclic_product_lem}
use bike_modify.Tests.Bignum.{plain, plain-IsDocumented, plain-Divides}
use bike_modify.Tests.Polynomials.{poly, poly-IsPoly}

-- The last byte comes first, with an odd number of bytes too.
reverse_endian_runs :
    reverse_endian (0 ∷ 0 ∷ 0 ∷ 9 ∷ []) (1 ∷ 2 ∷ 3 ∷ 4 ∷ []) 3 ≡ 3 ∷ 2 ∷ 1 ∷ 9 ∷ []
unfolding reverse_endian for_range
reverse_endian_runs = refl

ossl_bn2bin-ossl_bin2bn_example :
    Outcome true
      (λ r. r ≡ poly 77)
      (ossl_bin2bn level1 plain 0 (poly 77) (r_size level1) >>= λ x.
        ossl_bn2bin level1 plain (poly 255) x (r_size level1))
ossl_bn2bin-ossl_bin2bn_example =
    ossl_bn2bin-ossl_bin2bn level1 plain true plain-IsDocumented 0 (poly 77) (poly 255)
      (poly-IsPoly 77 (omega arith)) (poly-IsPoly 255 (omega arith)).size

ossl_add_lem_example :
    Outcome true
      (λ out. out ≡ gf2x_add (poly 0) (poly 77) (poly 5) (r_size level1))
      (ossl_add level1 plain (poly 0) (poly 77) (poly 5))
ossl_add_lem_example =
    ossl_add_lem level1 plain true plain-IsDocumented (poly 0) (poly 77) (poly 5)
      (poly-IsPoly 0 (omega arith)).size (poly-IsPoly 77 (omega arith))
      (poly-IsPoly 5 (omega arith))

cyclic_product_lem_example :
    Outcome true
      (λ out. out ≡ mod_mul level1 (poly 77) (poly 5))
      (cyclic_product level1 plain (poly 0) (poly 77) (poly 5))
cyclic_product_lem_example =
    cyclic_product_lem level1 plain true plain-IsDocumented plain-Divides (poly 0) (poly 77)
      (poly 5) (poly-IsPoly 0 (omega arith)).size (poly-IsPoly 77 (omega arith))
      (poly-IsPoly 5 (omega arith))
