-- ===== src/Decode/Syndrome.antt =====
-- The digits of a syndrome.
use bike_modify.Base.{ℕ, ◌-◌, ◌*◌, ◌%◌, ◌<◌, ◌≡◌, refl, ap, ap₂, ◌∙◌, arith}
use bike_modify.Base.{Bool, List, length, xor}
use native.Mathlib.Nat.{mod-lt, mod-eq_of_lt}
use bike_modify.Word.{IsWords, bit_at}
use bike_modify.Bytes.{byte_bit, memcpy, memcpy_lem}
use bike_modify.Params.{Level, r_bits, r_qw, r_size, layout}
use bike_modify.Poly.{cyclic_product}
use bike_modify.Duplicate.{dup}
use bike_modify.Duplicate.Syndrome.{dup_lem}
use bike_modify.Gf2x.{gf2x_add}
use bike_modify.Gf2x.Add.{gf2x_add_lem}
use bike_modify.FindErr.{Pair}
use bike_modify.Decode.{SecretKey, mod_mul, compute_syndrome}
use bike_modify.Decode.Polynomial.{IsPoly, mod_mul-IsPoly, mod_mul_lem, gf2x_add-IsPoly}

pub record ArePolys (l : Level) (x : Pair) : Type 0 where
  pub first : IsPoly l x.val0
  pub second : IsPoly l x.val1

-- Digit `p` of `c0 * h0 + c1 * h1` modulo `x^R_BITS - 1`.
unfoldable pub syndrome_digit : Level → Pair → Pair → ℕ → Bool
syndrome_digit l ct h p =
    xor (cyclic_product (r_bits l) (byte_bit ct.val0) (byte_bit h.val0) p)
      (cyclic_product (r_bits l) (byte_bit ct.val1) (byte_bit h.val1) p)

-- The polynomial that `compute_syndrome` copies to the syndrome.
unfoldable pub syndrome_poly : Level → Pair → Pair → List ℕ
syndrome_poly l ct h =
    let pad_s0 = mod_mul l ct.val0 h.val0 in
    gf2x_add pad_s0 pad_s0 (mod_mul l ct.val1 h.val1) (r_size l)

module _ (l : Level) (ct h : Pair) (sc : ArePolys l ct) (sh : ArePolys l h) where
  pub syndrome_poly-IsPoly : IsPoly l (syndrome_poly l ct h)
  unfolding syndrome_poly
  syndrome_poly-IsPoly =
      let s0 = mod_mul-IsPoly l ct.val0 h.val0 sc.first sh.first in
      let s1 = mod_mul-IsPoly l ct.val1 h.val1 sc.second sh.second in
      gf2x_add-IsPoly l _ _ _ s0.size s0 s1

  pub syndrome_poly_lem :
      (p : ℕ) → p < r_bits l → byte_bit (syndrome_poly l ct h) p ≡ syndrome_digit l ct h p
  unfolding syndrome_poly syndrome_digit
  syndrome_poly_lem p k =
      let s0 = mod_mul-IsPoly l ct.val0 h.val0 sc.first sh.first in
      gf2x_add_lem _ _ _ (r_size l) p (omega (arith, s0.size)) (omega (arith, layout l))
      ∙ ap₂ xor (mod_mul_lem l ct.val0 h.val0 p sc.first sh.first k)
          (mod_mul_lem l ct.val1 h.val1 p sc.second sh.second k)

-- `compute_syndrome` on polynomials writes words whose digits are those of `c0 * h0 + c1 * h1`, modulo
-- `x^R_BITS - 1`, repeated with period `R_BITS` up to the last of the `3 * R_QW` words.
pub compute_syndrome_lem :
    (l : Level) (s : List ℕ) (ct : Pair) (sk : SecretKey)
    → length s ≡ 3 * r_qw l
    → IsWords 64 s
    → ArePolys l ct
    → ArePolys l sk.bin
    → (length (compute_syndrome l s ct sk) ≡ 3 * r_qw l)
      × IsWords 64 (compute_syndrome l s ct sk)
      × ((p : ℕ)
          → p < 64 * (3 * r_qw l - 1)
          → bit_at (compute_syndrome l s ct sk) p ≡ syndrome_digit l ct sk.bin (p % r_bits l))
unfolding compute_syndrome syndrome_poly
compute_syndrome_lem l s ct sk len words sc sh =
    let raw = syndrome_poly l ct sk.bin in
    let poly = syndrome_poly-IsPoly l ct sk.bin sc sh in
    let copied = memcpy_lem s raw (r_size l) words poly.bytes (omega (arith, len, layout l)) in
    let twice = dup_lem l (memcpy s raw (r_size l)) (copied.0 ∙ len) copied.1 in
    (
      twice.0,
      twice.1,
      λ p h.
          twice.2 p h
          ∙ copied.2 (p % r_bits l)
          ∙ ground (arith, layout l, below l p, syndrome_poly_lem l ct sk.bin sc sh (p % r_bits l)),
    )
  where
    below : (l : Level) (p : ℕ) → p % r_bits l < r_bits l
    below l p = mod-lt p (omega (arith, layout l))

-- An array of words that `dup` has made of a syndrome with the digits `f`.
pub record IsDoubled (l : Level) (f : ℕ → Bool) (s : List ℕ) : Type 0 where
  pub source : List ℕ
  pub size : length source ≡ 3 * r_qw l
  pub words : IsWords 64 source
  pub doubled : s ≡ dup l source
  pub digits : (p : ℕ) → p < r_bits l → bit_at source p ≡ f p

-- The digits of the array are those of the syndrome.
pub IsDoubled-digits :
    (l : Level) (f : ℕ → Bool) (s : List ℕ) (p : ℕ)
    → IsDoubled l f s
    → p < r_bits l
    → bit_at s p ≡ f p
IsDoubled-digits l f s p d h =
    ap (λ t. bit_at t p) d.doubled
    ∙ (dup_lem l d.source d.size d.words).2 p (omega (arith, layout l))
    ∙ ap (bit_at d.source) (mod-eq_of_lt {n = p} {m = r_bits l} h)
    ∙ d.digits p h

pub IsDoubled-IsWords :
    (l : Level) (f : ℕ → Bool) (s : List ℕ)
    → IsDoubled l f s
    → (length s ≡ 3 * r_qw l) × IsWords 64 s
IsDoubled-IsWords l f s d =
    let twice = dup_lem l d.source d.size d.words in
    (ap (length) d.doubled ∙ twice.0, rw (d.doubled) (twice.1))

pub compute_syndrome-IsDoubled :
    (l : Level) (f : ℕ → Bool) (s : List ℕ) (ct : Pair) (sk : SecretKey)
    → length s ≡ 3 * r_qw l
    → IsWords 64 s
    → ArePolys l ct
    → ArePolys l sk.bin
    → ((p : ℕ) → p < r_bits l → syndrome_digit l ct sk.bin p ≡ f p)
    → IsDoubled l f (compute_syndrome l s ct sk)
compute_syndrome-IsDoubled l f s ct sk len words sc sh same =
    let raw = syndrome_poly l ct sk.bin in
    let poly = syndrome_poly-IsPoly l ct sk.bin sc sh in
    let copied = memcpy_lem s raw (r_size l) words poly.bytes (omega (arith, len, layout l)) in
    record {
      source = memcpy s raw (r_size l);
      size = copied.0 ∙ len;
      words = copied.1;
      doubled = unfold compute_syndrome in unfold syndrome_poly in refl;
      digits = λ p h.
          copied.2 p ∙ ground (arith, layout l, syndrome_poly_lem l ct sk.bin sc sh p h) ∙ same p h;
    }
