-- ===== src/Decode/Success.antt =====
-- What the success of `decode` means.
use bike_modify.Base.{ℕ, zero, suc, ◌+◌, ◌≡◌, refl, sym, subst, ap, List, ◌==◌}
use bike_modify.Params.{Level, max_it, level1, level3, level5}
use bike_modify.FindErr.{Pair}
use bike_modify.Decode.{
  SecretKey, Iteration, recompute_syndrome, syndrome_weight, is_decoded, decode, no_errors,
}
use bike_modify.Duplicate.{dup}
use bike_modify.Decode.{flip_step, masked_step, iteration, iterations}

pub max_it-suc : (l : Level) → (n : ℕ) × (max_it l ≡ suc n)
unfolding max_it
max_it-suc level1 = (4, refl)
max_it-suc level3 = (5, refl)
max_it-suc level5 = (6, refl)

module _ (l : Level) (over : ℕ → ℕ → ℕ) (ct : Pair) (sk : SecretKey) where
  -- The syndrome belongs to the errors: it is that of the ciphertext with the errors added, written
  -- over some array.
  abbrev pub IsCurrent : Iteration l → Type 0
  IsCurrent it = (s : List ℕ) × (it.s ≡ recompute_syndrome l s ct sk it.e)

  iteration-IsCurrent : (iter : ℕ) (it : Iteration l) → IsCurrent (iteration l over ct sk iter it)
  unfolding iteration masked_step flip_step
  iteration-IsCurrent zero it = (_, refl)
  iteration-IsCurrent (suc iter) it = (_, refl)

  iterations-IsCurrent :
      (n iter : ℕ) (it : Iteration l) → IsCurrent (iterations l over ct sk (suc n) iter it)
  unfolding iterations
  iterations-IsCurrent zero iter it = iteration-IsCurrent iter it
  iterations-IsCurrent (suc n) iter it =
      iterations-IsCurrent n (iter + 1) (iteration l over ct sk iter it)

  -- `decode` succeeds exactly if the errors that it returns, added to the ciphertext, give a syndrome
  -- of weight 0; the syndrome is computed over some array, whose first bytes it overwrites.
  pub decode_lem :
      (original_s : List ℕ)
      → (s : List ℕ) × ((decode l over ct sk original_s).1 ≡ (
          syndrome_weight l (recompute_syndrome l s ct sk (decode l over ct sk original_s).0) == 0))
  unfolding decode is_decoded
  decode_lem original_s =
      let start : Iteration l = record {
        e = no_errors l;
        black_e = no_errors l;
        gray_e = no_errors l;
        s = dup l original_s;
      } in
      let last = iterations l over ct sk (max_it l) 0 start in
      let (n, e) = max_it-suc l in
      let current : IsCurrent last =
        subst (λ k. IsCurrent (iterations l over ct sk k 0 start)) (sym e)
          (iterations-IsCurrent n 0 start) in
      (current.0, ap (λ t. syndrome_weight l t == 0) current.1)
