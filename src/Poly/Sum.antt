-- ===== src/Poly/Sum.antt =====
-- Sums over two elements.
use bike_modify.Base.{ℕ, zero, suc, ◌+◌, ◌<◌, ◌≡◌, refl, sym, ap, ap₂, ◌∙◌, arith}
use bike_modify.Base.{Bool, false, ◌&&◌, xor, ltb, ◌==◌, eq_or_ne, inl, inr}
use bike_modify.Poly.{xor_sum}

pub xor_swap : (a b c d : Bool) → xor (xor a b) (xor c d) ≡ xor (xor a c) (xor b d)
unfolding xor
xor_swap a b c d = ground arith

pub xor_assoc : (a b c : Bool) → xor (xor a b) c ≡ xor a (xor b c)
unfolding xor
xor_assoc a b c = ground arith

pub xor_comm : (a b : Bool) → xor a b ≡ xor b a
unfolding xor
xor_comm a b = ground arith

pub xor-false : (a : Bool) → xor a false ≡ a
unfolding xor
xor-false a = ground arith

pub and-xor : (a b c : Bool) → (a && xor b c) ≡ xor (a && b) (a && c)
unfolding xor
and-xor a b c = ground arith

pub xor-and : (a b c : Bool) → (xor a b && c) ≡ xor (a && c) (b && c)
unfolding xor
xor-and a b c = ground arith

pub sum_cong : (n : ℕ) (f g : ℕ → Bool) → ((i : ℕ) → i < n → f i ≡ g i) → xor_sum n f ≡ xor_sum n g
unfolding xor_sum
sum_cong zero f g h = refl
sum_cong (suc n) f g h = ap₂ xor (sum_cong n f g (λ i l. h i (omega arith))) (h n (omega arith))

pub sum_false : (n : ℕ) (f : ℕ → Bool) → ((i : ℕ) → i < n → f i ≡ false) → xor_sum n f ≡ false
unfolding xor_sum xor
sum_false zero f h = refl
sum_false (suc n) f h = ap₂ xor (sum_false n f (λ i l. h i (omega arith))) (h n (omega arith))

pub sum_xor :
    (n : ℕ) (f g : ℕ → Bool) → xor_sum n (λ i. xor (f i) (g i)) ≡ xor (xor_sum n f) (xor_sum n g)
unfolding xor_sum
sum_xor zero f g = sym (xor-false false)
sum_xor (suc n) f g =
    ap (λ t. xor t (xor (f n) (g n))) (sum_xor n f g)
    ∙ xor_swap (xor_sum n f) (xor_sum n g) (f n) (g n)

pub sum_split :
    (m n : ℕ) (f : ℕ → Bool) → xor_sum (m + n) f ≡ xor (xor_sum m f) (xor_sum n (λ i. f (m + i)))
unfolding xor_sum
sum_split m zero f =
    ap (λ t. xor_sum t f) {x = m + 0} {y = m} (omega arith) ∙ sym (xor-false (xor_sum m f))
sum_split m (suc n) f =
    ap (λ t. xor_sum t f) {x = m + suc n} {y = suc (m + n)} (omega arith)
    ∙ ap (λ t. xor t (f (m + n))) (sum_split m n f)
    ∙ xor_assoc (xor_sum m f) (xor_sum n (λ i. f (m + i))) (f (m + n))

pub and-sum : (n : ℕ) (c : Bool) (f : ℕ → Bool) → (c && xor_sum n f) ≡ xor_sum n (λ i. c && f i)
unfolding xor_sum
and-sum zero c f = ground arith
and-sum (suc n) c f = and-xor c (xor_sum n f) (f n) ∙ ap (λ t. xor t (c && f n)) (and-sum n c f)

-- The order of two sums does not matter.
pub sum_exchange :
    (m n : ℕ) (f : ℕ → ℕ → Bool)
    → xor_sum m (λ i. xor_sum n (f i)) ≡ xor_sum n (λ j. xor_sum m (λ i. f i j))
unfolding xor_sum
sum_exchange zero n f = sym (sum_false n (λ j. false) (λ j h. refl))
sum_exchange (suc m) n f =
    ap (λ t. xor t (xor_sum n (f m))) (sum_exchange m n f)
    ∙ sym (sum_xor n (λ j. xor_sum m (λ i. f i j)) (f m))

-- One term of the sum is not cut off.
pub sum-at : (n k : ℕ) (f : ℕ → Bool) → xor_sum n (λ i. f i && (i == k)) ≡ (ltb k n && f k)
unfolding xor_sum
sum-at zero k f = ground arith
sum-at (suc n) k f = elim (eq_or_ne n k) [
  | inl e ↦
      ap (λ t. xor t (f n && (n == k))) (sum-at n k f) ∙ unfold xor in ground (arith, e, ap f e)
  | inr ne ↦ ap (λ t. xor t (f n && (n == k))) (sum-at n k f) ∙ unfold xor in ground (arith, ne)
]
