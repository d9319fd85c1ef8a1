-- ===== src/Tests/Reference.antt =====
-- Inputs for the decoder against its reference: a key of two digits in each polynomial.
use bike_modify.Base.{[], ◌∷◌}
use bike_modify.Decode.{SecretKey}
use bike_modify.Tests.Kem.{key}
use bike_modify.Tests.Polynomials.{two_polys}

abbrev sparse_key : SecretKey
sparse_key = record key {
  bin = two_polys 20 40;
  wlist = record { val0 = 2 ∷ 4 ∷ []; val1 = 3 ∷ 5 ∷ [] };
}
