-- ===== src/Kem/Written.antt =====
-- The loop of `split_e` over the second part.
use bike_modify.Base.{ℕ, ◌+◌, ◌-◌, ◌<◌, ◌≡◌, refl, sym, ap, ◌∙◌, arith}
use bike_modify.Base.{
  List, length, get_or, set, length-set, get_or-set_self, get_or-set_ne, for_range, for_range_inv,
  eq_or_ne, inl, inr,
}

-- A loop that writes the bytes of an array from the left.
module _ (f : ℕ → ℕ) (from : ℕ) (raw : List ℕ) where
  pub record Written (k : ℕ) (r : List ℕ) : Type 0 where
    pub len : length r ≡ length raw
    pub vals : (j : ℕ) → from + j < k → j < length raw → get_or r j 0 ≡ f (from + j)

  pub written : (n : ℕ) → Written (from + n) (for_range n from (λ i r. set r (i - from) (f i)) raw)
  written n =
      for_range_inv Written (λ i r. set r (i - from) (f i)) n from (from + n) raw
        (λ k r p q s. record {
          len = length-set r (k - from) (f k) ∙ s.len;
          vals = λ j h m. elim (eq_or_ne (k - from) j) [
            | inl e ↦
                ap (λ t. get_or (set r (k - from) (f k)) t 0) (sym e)
                ∙ get_or-set_self r (k - from) (f k) 0 (omega (arith, s.len))
                ∙ ap f {x = k} {y = from + j} (omega arith)
            | inr ne ↦ get_or-set_ne r (k - from) j (f k) 0 ne ∙ s.vals j (omega arith) m
          ];
        })
        refl record { len = refl; vals = λ j h m. absurd (omega arith) }
