-- ===== src/Base/Loops.antt =====
-- Counted loops, and the loops that fill an array from the left.
use Prim.Native.Nat.{ℕ, zero, suc, ◌+◌, ◌≤◌, ◌<◌}
use mathlib.Core.Path.{◌≡◌, refl, ◌∙◌, ap, ap₂}
use mathlib.Core.Logic.{◌⊎◌, inl, inr}
use mathlib.Core.List.{List}
use native.Mathlib.Omega.{arith}
use bike_modify.Base.Tests.{eq_or_ne}
use bike_modify.Base.Lists.{get_or, set, length, length-set, get_or-set_self, get_or-set_ne}

-- `for (k = from; k < from + rounds; k++) st = step(k, st)`
unfoldable pub for_range {ℓ} : {St : Type ℓ} → ℕ → ℕ → (ℕ → St → St) → St → St
for_range zero from step st = st
for_range (suc rounds) from step st =
    let next = step from st in for_range rounds (from + 1) step next

-- What holds at the start and is kept by every round holds at the end of the range.
pub for_range_inv {ℓ κ} :
    {St : Type ℓ} (Inv : ℕ → St → Type κ) (step : ℕ → St → St) (rounds from end : ℕ) (st : St)
    → ((k : ℕ) (t : St) → from ≤ k → k < end → Inv k t → Inv (k + 1) (step k t))
    → from + rounds ≡ end
    → Inv from st
    → Inv end (for_range rounds from step st)
unfolding for_range
for_range_inv Inv step zero from end st keep e start =
    let same : end ≡ from = omega arith in rw same start
for_range_inv Inv step (suc rounds) from end st keep e start =
    for_range_inv Inv step rounds (from + 1) end (step from st)
      (λ k t p q. keep k t (omega arith) q) (omega arith)
      (keep from st (omega arith) (omega arith) start)

-- Loops whose rounds agree.
pub for_range_cong {ℓ} :
    {St : Type ℓ} (step step' : ℕ → St → St) (rounds from : ℕ) (st : St)
    → ((k : ℕ) (t : St) → from ≤ k → k < from + rounds → step k t ≡ step' k t)
    → for_range rounds from step st ≡ for_range rounds from step' st
unfolding for_range
for_range_cong step step' zero from st h = refl
for_range_cong step step' (suc rounds) from st h =
    for_range_cong step step' rounds (from + 1) (step from st)
      (λ k t p q. h k t (omega arith) (omega arith))
    ∙ ap (for_range rounds (from + 1) step') (h from st (omega arith) (omega arith))

-- `xs` and `ys` hold the same values from `i` on.
abbrev pub AgreeFrom {ℓ} : {A : Type ℓ} → A → ℕ → List A → List A → Type ℓ
AgreeFrom d i xs ys = (j : ℕ) → i ≤ j → get_or xs j d ≡ get_or ys j d

-- A loop that writes `xs[i] = f(i, xs)` for rising `i`.
unfoldable pub fill {ℓ} : {A : Type ℓ} → ℕ → ℕ → (ℕ → List A → A) → List A → List A
unfolding for_range
fill n i f xs = for_range n i (λ k ys. set ys k (f k ys)) xs

module _ {ℓ} {A : Type ℓ} (d : A) (f : ℕ → List A → A) where
  pub length-fill : (n i : ℕ) (xs : List A) → length (fill n i f xs) ≡ length xs
  unfolding fill
  length-fill zero i xs = refl
  length-fill (suc n) i xs = length-fill n (i + 1) (set xs i (f i xs)) ∙ length-set xs i (f i xs)

  -- What stands outside the range that is written stays.
  pub fill_outside :
      (n i : ℕ) (xs : List A) (j : ℕ)
      → (j < i) ⊎ (i + n ≤ j)
      → get_or (fill n i f xs) j d ≡ get_or xs j d
  unfolding fill
  fill_outside zero i xs j h = refl
  fill_outside (suc n) i xs j h =
      fill_outside n (i + 1) (set xs i (f i xs)) j (omega arith)
      ∙ get_or-set_ne xs i j (f i xs) d (omega arith)

  module _ (forward : (k : ℕ) (xs ys : List A) → AgreeFrom d k xs ys → f k xs ≡ f k ys) where
    -- If `f` reads at the index that is written or further right, the loop in place gives
    -- what a loop into another array would give.
    pub fill_inside :
        (n i : ℕ) (xs : List A) (j : ℕ)
        → i ≤ j
        → j < i + n
        → j < length xs
        → get_or (fill n i f xs) j d ≡ f j xs
    unfolding fill
    fill_inside zero i xs j p q r = absurd (omega arith)
    fill_inside (suc n) i xs j p q r = elim (split i j p) [
      | inl e ↦
          fill_outside n (i + 1) (set xs i (f i xs)) j (omega arith)
          ∙ rw e (get_or-set_self xs j (f j xs) d r)
      | inr l ↦
          fill_inside n (i + 1) (set xs i (f i xs)) j l (omega arith)
            (rw (length-set xs i (f i xs)) r)
          ∙ forward j (set xs i (f i xs)) xs (λ k m. get_or-set_ne xs i k (f i xs) d (omega arith))
    ]
      where
        split : (i j : ℕ) → i ≤ j → (i ≡ j) ⊎ (i + 1 ≤ j)
        split i j p = grind arith

-- A loop that, for rising `i`, writes `a[i] = f(a[i], b[i])` and `b[i] = g(a[i], b[i])`, where both
-- right sides are read first.
unfoldable pub fill_pair {ℓ} :
    {A : Type ℓ} → A → ℕ → ℕ → (A → A → A) → (A → A → A) → List A × List A → List A × List A
unfolding for_range
fill_pair d n i f g ab =
    for_range n i
      (λ k s. (
        set s.0 k (f (get_or s.0 k d) (get_or s.1 k d)),
        set s.1 k (g (get_or s.0 k d) (get_or s.1 k d)),
      ))
      ab

module _ {ℓ} {A : Type ℓ} (d : A) (f g : A → A → A) where
  pub length-fill_pair :
      (n i : ℕ) (a b : List A)
      → (length (fill_pair d n i f g (a, b)).0 ≡ length a)
        × (length (fill_pair d n i f g (a, b)).1 ≡ length b)
  unfolding fill_pair
  length-fill_pair zero i a b = (refl, refl)
  length-fill_pair (suc n) i a b =
      let a' = set a i (f (get_or a i d) (get_or b i d)) in
      let b' = set b i (g (get_or a i d) (get_or b i d)) in
      let ih = length-fill_pair n (i + 1) a' b' in
      (ih.0 ∙ length-set a i _, ih.1 ∙ length-set b i _)

  pub fill_pair_outside :
      (n i : ℕ) (a b : List A) (j : ℕ)
      → (j < i) ⊎ (i + n ≤ j)
      → (get_or (fill_pair d n i f g (a, b)).0 j d ≡ get_or a j d)
        × (get_or (fill_pair d n i f g (a, b)).1 j d ≡ get_or b j d)
  unfolding fill_pair
  fill_pair_outside zero i a b j h = (refl, refl)
  fill_pair_outside (suc n) i a b j h =
      let a' = set a i (f (get_or a i d) (get_or b i d)) in
      let b' = set b i (g (get_or a i d) (get_or b i d)) in
      let ih = fill_pair_outside n (i + 1) a' b' j (omega arith) in
      (ih.0 ∙ get_or-set_ne a i j _ d (omega arith), ih.1 ∙ get_or-set_ne b i j _ d (omega arith))

  pub fill_pair_inside :
      (n i : ℕ) (a b : List A) (j : ℕ)
      → i ≤ j
      → j < i + n
      → j < length a
      → j < length b
      → (get_or (fill_pair d n i f g (a, b)).0 j d ≡ f (get_or a j d) (get_or b j d))
        × (get_or (fill_pair d n i f g (a, b)).1 j d ≡ g (get_or a j d) (get_or b j d))
  unfolding fill_pair
  fill_pair_inside zero i a b j p q r s = absurd (omega arith)
  fill_pair_inside (suc n) i a b j p q r s =
      let a' = set a i (f (get_or a i d) (get_or b i d)) in
      let b' = set b i (g (get_or a i d) (get_or b i d)) in
      elim (eq_or_ne i j) [
        | inl e ↦
            let out = fill_pair_outside n (i + 1) a' b' j (omega arith) in
            (out.0 ∙ rw e (get_or-set_self a j _ d r), out.1 ∙ rw e (get_or-set_self b j _ d s))
        | inr ne ↦
            let ih =
              fill_pair_inside n (i + 1) a' b' j (omega arith) (omega arith)
                (rw (length-set a i (f (get_or a i d) (get_or b i d))) r)
                (rw (length-set b i (g (get_or a i d) (get_or b i d))) s) in
            let a_j = get_or-set_ne a i j (f (get_or a i d) (get_or b i d)) d ne in
            let b_j = get_or-set_ne b i j (g (get_or a i d) (get_or b i d)) d ne in
            (ih.0 ∙ ap₂ f a_j b_j, ih.1 ∙ ap₂ g a_j b_j)
      ]
