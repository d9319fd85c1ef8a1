-- ===== src/Decode/Reference.antt =====
-- The decoder that `decode` implements, on polynomials given by their digits: no bytes, words, copies
-- or counters, and the syndrome is always that of the errors found so far.
use bike_modify.Base.{ℕ, zero, suc, ◌+◌, ◌*◌, ◌/◌, ◌%◌, ◌^◌, List, [], ◌∷◌, Bool, false, to_nat}
use bike_modify.Base.{leb, not, xor, ◌&&◌, ◌==◌}
use bike_modify.Params.{Level, r_bits, dv, delta, max_it, threshold_coeff0, threshold_coeff1}
use bike_modify.Utilities.Weight.{ones}
use bike_modify.Poly.{cyclic_product}

-- Two polynomials: a ciphertext, a key or the errors.
pub record Digits : Type 0 where
  pub poly0 : ℕ → Bool
  pub poly1 : ℕ → Bool

-- The places of the digits that are set in each polynomial of the key.
pub record Places : Type 0 where
  pub places0 : List ℕ
  pub places1 : List ℕ

-- How many parity checks of digit `p` fail.
abbrev pub failed : Level → (ℕ → Bool) → List ℕ → ℕ → ℕ
failed l s [] p = 0
failed l s (w ∷ places) p = to_nat (s ((p + w) % r_bits l)) + failed l s places p

-- The digits with `t` failed checks or more, where `extra` more are counted.
unfoldable pub suspects : Level → Places → (ℕ → Bool) → ℕ → ℕ → Digits
suspects l w s t extra = record {
  poly0 = λ p. leb t (failed l s w.places0 p + extra);
  poly1 = λ p. leb t (failed l s w.places1 p + extra);
}

unfoldable pub flip : Digits → Digits → Digits
flip e f = record {
  poly0 = λ p. xor (e.poly0 p) (f.poly0 p);
  poly1 = λ p. xor (e.poly1 p) (f.poly1 p);
}

unfoldable pub both : Digits → Digits → Digits
both e f = record { poly0 = λ p. e.poly0 p && f.poly0 p; poly1 = λ p. e.poly1 p && f.poly1 p }

unfoldable pub without : Digits → Digits → Digits
without e f = record {
  poly0 = λ p. not (e.poly0 p) && f.poly0 p;
  poly1 = λ p. not (e.poly1 p) && f.poly1 p;
}

module _ (l : Level) where
  unfoldable pub threshold : (ℕ → Bool) → ℕ
  threshold s = (threshold_coeff0 l + threshold_coeff1 l * ones s (r_bits l)) / 10 ^ 7

  -- The threshold of the rounds with a mask.
  unfoldable pub half_threshold : ℕ
  half_threshold = (dv l + 1) / 2 + 1

  module _ (c h : Digits) where
    -- The syndrome of the ciphertext with the errors added.
    unfoldable pub remainder : Digits → ℕ → Bool
    remainder e p =
        xor (cyclic_product (r_bits l) (λ i. xor (c.poly0 i) (e.poly0 i)) h.poly0 p)
          (cyclic_product (r_bits l) (λ i. xor (c.poly1 i) (e.poly1 i)) h.poly1 p)

    unfoldable pub is_solved : Digits → Bool
    is_solved e = ones (remainder e) (r_bits l) == 0

    module _ (w : Places) where
      unfoldable pub black : Digits → Digits
      black e = let s = remainder e in suspects l w s (threshold s) 0

      unfoldable pub gray : Digits → Digits
      gray e = let s = remainder e in without (black e) (suspects l w s (threshold s) delta)

      -- Flip every digit whose failed checks reach the threshold.
      unfoldable pub flip_round : Digits → Digits
      flip_round e = flip e (black e)

      -- Flip those of the mask whose failed checks reach half of all.
      unfoldable pub masked_round : Digits → Digits → Digits
      masked_round mask e = flip e (both mask (suspects l w (remainder e) half_threshold 0))

      -- The first round looks at its black and its gray digits again.
      unfoldable pub round : ℕ → Digits → Digits
      round zero e = masked_round (gray e) (masked_round (black e) (flip_round e))
      round (suc i) e = flip_round e

      unfoldable pub rounds : ℕ → ℕ → Digits → Digits
      rounds zero i e = e
      rounds (suc n) i e = rounds n (i + 1) (round i e)

      -- The errors that are found.
      unfoldable pub reference : Digits
      reference = rounds (max_it l) 0 (record { poly0 = λ p. false; poly1 = λ p. false })
